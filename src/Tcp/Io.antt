-- ===== src/Tcp/Io.antt =====
-- src/lib/protocol/tcp.c: making, reading, writing and closing a connection, the end of its
-- connecting, and the handlers of its events.
pub mod Events
use xsocks.Base.{
  ℕ, Bool, true, false, List, [], ◌∷◌, Option, none, some, take, ◌==◌, ◌||◌, if◌then◌else◌,
  replicate,
}
use xsocks.Base.Int.{ℤ, pos, negsuc}
use xsocks.Net.{
  Os, Input, Output, net_tcp_read, net_tcp_write, eagain, eisconn, ealready, einprogress,
}
use xsocks.Tcp.{
  TcpConn, Flags, Event, Handlers, Status, tcp_ok, tcp_err, read_fired, timeout_fired,
  connect_fired, error_read, error_write, error_timeout, error_closed, error_connect, add_write,
  add_time, del_write, del_time, fire, fire_close, give_up, set_timeout,
}

-- NET_IOBUF_LEN
abbrev pub net_iobuf_len : ℕ
net_iobuf_len = 16384

abbrev pub no_handlers : Handlers
no_handlers = record {
  on_read = false;
  on_write = false;
  on_timeout = false;
  on_close = false;
  on_error = false;
  on_connect = false;
}

abbrev pub init_flags : Flags
init_flags = record { connecting = false; connected = false; piped = false; closed = false }

-- `tcpConnNew` where its allocations succeed
unfoldable pub tcp_conn_new : ℕ → ℤ → TcpConn
tcp_conn_new fd timeout = record {
  fd = fd;
  flags = init_flags;
  timeout = timeout;
  re = none;
  we = none;
  te = none;
  handlers = no_handlers;
  rbuf = replicate net_iobuf_len 0;
  rbuf_off = 0;
  wbuf = none;
  wbuf_len = pos 0;
  error = 0;
  fired = [];
  aborted = false;
}

-- `tcpConnInit`, less the socket options and the texts for the log
unfoldable pub tcp_conn_init : TcpConn → TcpConn
tcp_conn_init c = record c { flags = record (c.flags) { connected = true } }

-- `tcpAccept`: the descriptor that anetTcpAccept returns, if any, and whether the allocation
-- succeeds.
unfoldable pub tcp_accept : Option ℕ → Bool → ℤ → Option TcpConn
unfolding tcp_conn_new tcp_conn_init
tcp_accept none allocated timeout = none
tcp_accept (some cfd) false timeout = none
tcp_accept (some cfd) true timeout = some (tcp_conn_init (tcp_conn_new cfd timeout))

-- `tcpConnect`: the descriptor that netTcpNonBlockConnect returns, if any.
unfoldable pub tcp_connect : Option ℕ → Bool → ℤ → Option TcpConn
unfolding tcp_conn_new
tcp_connect none allocated timeout = none
tcp_connect (some fd) false timeout = none
tcp_connect (some fd) true timeout =
    let c = tcp_conn_new fd timeout in
    some (record c { flags = record (c.flags) { connecting = true } })

abbrev new_event : ℕ → Option Event
new_event fd = some (record { id = pos fd; added = false })

-- `tcpInit`
unfoldable pub tcp_init : TcpConn → TcpConn
unfolding add_write set_timeout
tcp_init c =
    let events = record c { re = new_event c.fd; we = new_event c.fd } in
    let timed = set_timeout events c.timeout in
    if c.flags.connecting then add_write timed else timed

-- `tcpIsConnected`
abbrev pub tcp_is_connected : TcpConn → Bool
tcp_is_connected c = c.flags.connected

-- the number of bytes that a `TCP_WRITE` of `len` bytes from a pointer at `mem` is given
abbrev pub slice : List ℕ → ℤ → List ℕ
slice mem (pos n) = take n mem
slice mem (negsuc n) = []

module _ (os : Os) where
  open os use {World, connect, close}

  -- `tcpRead`
  unfoldable pub tcp_read : TcpConn → ℕ → World → Input × TcpConn × World
  unfolding fire_close give_up add_time
  tcp_read c buf_len w =
      let stopped = del_time c in
      let (r, closed, w') = net_tcp_read os c.fd buf_len w in
      elim r [
        | Input.fail ↦ (Input.fail, give_up error_read stopped, w')
        | Input.bytes [] ↦
            if closed
            then (Input.fail, fire_close (record stopped { error = error_closed }), w')
            else (Input.bytes [], add_time stopped, w')
        | Input.bytes (b ∷ bs) ↦ (Input.bytes (b ∷ bs), add_time stopped, w')
      ]

  -- `tcpWrite` of the bytes `buf`
  unfoldable pub tcp_write : TcpConn → List ℕ → World → Output × TcpConn × World
  unfolding give_up
  tcp_write c buf w =
      let (r, w') = net_tcp_write os c.fd buf w in
      elim r [
        | Output.fail ↦ (Output.fail, give_up error_write c, w')
        | Output.count n ↦ (Output.count n, c, w')
        | Output.crash ↦ (Output.crash, c, w')
      ]

  -- `tcpClose`; the connection is freed, and what is returned is its last state.
  unfoldable pub tcp_close : TcpConn → World → TcpConn × World
  tcp_close c w = (
    record c {
      flags = record (c.flags) { closed = true };
      re = none;
      we = none;
      te = none;
      rbuf = [];
    },
    close c.fd w,
  )

  -- `tcpCheckConnectDone`: the status and `*done`
  pub tcp_check_connect_done : TcpConn → World → Status × Bool × TcpConn × World
  tcp_check_connect_done c w =
      let (r, w') = connect c.fd w in
      elim r [
        | none ↦ (tcp_ok, true, c, w')
        | some errno ↦
            if errno == eisconn
            then (tcp_ok, true, c, w')
            else if errno == ealready || errno == einprogress || errno == eagain
            then (tcp_ok, false, c, w')
            else (tcp_err, false, record c { error = error_connect }, w')
      ]

  fire_connect : Status → TcpConn → TcpConn
  fire_connect s c = fire c.handlers.on_connect (connect_fired s) c

  -- the branch of `handleTcpConnection` for a connection that is not connected
  connecting_done : Status → Bool → TcpConn → Status × TcpConn
  unfolding fire_close fire_connect tcp_conn_init
  connecting_done tcp_ok false c = (tcp_err, c)
  connecting_done tcp_ok true c = (tcp_ok, fire_connect tcp_ok (del_write (tcp_conn_init c)))
  connecting_done tcp_err done c = (tcp_err, fire_close (fire_connect tcp_err c))

  -- `handleTcpConnection`
  unfoldable pub handle_tcp_connection : TcpConn → World → Status × TcpConn × World
  unfolding tcp_check_connect_done connecting_done
  handle_tcp_connection c w =
      if tcp_is_connected c
      then (tcp_ok, c, w)
      else let (status, done, c', w') = tcp_check_connect_done c w in
        let (s, c'') = connecting_done status done c' in (s, c'', w')

  -- `tcpConnReadHandler`
  unfoldable pub tcp_conn_read_handler : TcpConn → World → TcpConn × World
  unfolding handle_tcp_connection
  tcp_conn_read_handler c w =
      let (status, c', w') = handle_tcp_connection c w in
      elim status [ tcp_err ↦ (c', w') | tcp_ok ↦ (fire c'.handlers.on_read read_fired c', w') ]

-- `tcpConnTimeoutHandler`
pub tcp_conn_timeout_handler : TcpConn → TcpConn
unfolding fire_close
tcp_conn_timeout_handler c =
    let late = record c { error = error_timeout } in
    fire_close (fire late.handlers.on_timeout timeout_fired late)
