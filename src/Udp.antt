-- ===== src/Udp.antt =====
-- src/lib/protocol/udp.c and udp.h: a socket for datagrams, its events and timer; the functions of
-- src/lib/core/net.c that it calls. As in `Tcp`, a callback is recorded in `fired` where the code
-- calls it.
pub mod Shadowsocks
pub mod Owned
pub mod Send
pub mod Loopback
use xsocks.Base.{
  ℕ, Bool, true, false, not, ◌||◌, List, [], ◌∷◌, ◌++◌, Option, none, some, length, ◌==◌,
  if◌then◌else◌,
}
use xsocks.Base.Int.{ℤ, pos, is_pos, ℤ-eqb, mul_ℕ, int32}
use xsocks.Net.{SysWrite, Input, Output}
use xsocks.Net.Resolve.{Info}
use xsocks.Net.Sockets.{Sockets, net_udp_server}
use xsocks.Socks5.{is_ipv6_addr}
use xsocks.Tcp.{
  Event, Fired, read_fired, timeout_fired, close_fired, error_fired, is_null, added, deleted,
}

-- What recvfrom(2) returns: the bytes of a datagram, as many as the buffer has room for, and its
-- sender; or `errno`.
pub data Received : Type 0 where
  got : List ℕ → Info → Received
  failed : ℕ → Received

-- The system calls for datagrams next to those of `sys`. `getaddrinfo` is given the family (none is
-- AF_UNSPEC), the host, if any, and the port. An address that is `none` is one that
-- `netSockAddrExInit` made and nothing was stored in.
pub record UdpOs : Type 1 where
  pub sys : Sockets
  pub getaddrinfo : Option Bool → Option (List ℕ) → ℕ → sys.World → Option (List Info)
  pub recvfrom : ℕ → ℕ → sys.World → Received × sys.World
  pub sendto : ℕ → List ℕ → Option Info → sys.World → SysWrite × sys.World

-- Which callbacks are installed.
pub record UdpHandlers : Type 0 where
  pub on_read : Bool
  pub on_timeout : Bool
  pub on_close : Bool
  pub on_error : Bool

-- `udpConn`, less the event for writing, which is never made.
pub record UdpConn : Type 0 where
  pub fd : ℕ
  pub timeout : ℤ
  pub re : Option Event
  pub te : Option Event
  pub handlers : UdpHandlers
  pub error : ℕ
  pub fired : List Fired
  pub aborted : Bool

abbrev pub no_udp_handlers : UdpHandlers
no_udp_handlers = record { on_read = false; on_timeout = false; on_close = false; on_error = false }

-- the codes in `err`
abbrev pub udp_error_read : ℕ
udp_error_read = 10000

abbrev pub udp_error_write : ℕ
udp_error_write = 10001

abbrev pub udp_error_timeout : ℕ
udp_error_timeout = 10002

abbrev pub udp_error_closed : ℕ
udp_error_closed = 10003

-- The FIRE macros of proxy.h.
abbrev pub udp_fire : Bool → Fired → UdpConn → UdpConn
udp_fire installed f c = if installed then record c { fired = c.fired ++ (f ∷ []) } else c

abbrev pub udp_fire_close : UdpConn → UdpConn
udp_fire_close c = udp_fire c.handlers.on_close close_fired c

-- `FIRE_ERROR(c); FIRE_CLOSE(c);` with `err` set
unfoldable pub udp_give_up : ℕ → UdpConn → UdpConn
udp_give_up code c =
    udp_fire_close (udp_fire c.handlers.on_error error_fired (record c { error = code }))

abbrev pub udp_add_read : UdpConn → UdpConn
udp_add_read c = record c { re = added c.re; aborted = c.aborted || is_null c.re }

-- ADD_EVENT_TIME
unfoldable pub udp_add_time : UdpConn → UdpConn
udp_add_time c =
    if is_pos c.timeout
    then record c { te = added c.te; aborted = c.aborted || is_null c.te }
    else c

abbrev pub udp_del_time : UdpConn → UdpConn
udp_del_time c = record c { te = deleted c.te }

abbrev milliseconds : ℕ
milliseconds = 1000

-- `udpSetTimeout`: as in tcp.c, the new timer gets the timeout that is still in the connection.
-- The product is an `int` that wraps around.
unfoldable pub udp_set_timeout : UdpConn → ℤ → UdpConn
unfolding udp_add_time
udp_set_timeout c timeout =
    let cleared =
      if not (is_pos timeout) || not (ℤ-eqb timeout c.timeout) then record c { te = none } else c in
    let period = int32 (mul_ℕ milliseconds c.timeout) in
    let timed : UdpConn = record cleared { te = some (record { id = period; added = false }) } in
    let armed = if is_pos timeout then udp_add_time timed else cleared in
    record armed { timeout = timeout }

-- `udpConnNew` where its allocation succeeds
unfoldable pub udp_conn_new : ℕ → ℤ → UdpConn
udp_conn_new fd timeout = record {
  fd = fd;
  timeout = timeout;
  re = none;
  te = none;
  handlers = no_udp_handlers;
  error = 0;
  fired = [];
  aborted = false;
}

-- `udpInit`
unfoldable pub udp_init : UdpConn → UdpConn
unfolding udp_set_timeout
udp_init c =
    let events = record c { re = some (record { id = pos c.fd; added = false }) } in
    udp_add_read (udp_set_timeout events events.timeout)

-- `udpConnTimeoutHandler`
unfoldable pub udp_conn_timeout_handler : UdpConn → UdpConn
udp_conn_timeout_handler c =
    let late = record c { error = udp_error_timeout } in
    udp_fire_close (udp_fire late.handlers.on_timeout timeout_fired late)

-- `udpConnReadHandler`
unfoldable pub udp_conn_read_handler : UdpConn → UdpConn
udp_conn_read_handler c = udp_fire c.handlers.on_read read_fired c

module _ (os : UdpOs) where
  open os use {sys, getaddrinfo, recvfrom, sendto}
  open sys use {World, close}

  -- `netUdpRead`, and what it stores in `*sa`
  pub net_udp_read : ℕ → ℕ → World → Input × Option Info × World
  net_udp_read fd buflen w =
      let (r, w') = recvfrom fd buflen w in
      elim r [
        | Received.got bs from ↦ (Input.bytes bs, some from, w')
        | Received.failed e ↦ (Input.fail, none, w')
      ]

  -- `netUdpWrite`
  pub net_udp_write : ℕ → List ℕ → Option Info → World → Output × World
  net_udp_write fd buf sa w =
      let (r, w') = sendto fd buf sa w in
      elim r [ SysWrite.wrote n ↦ (Output.count n, w') | SysWrite.failed e ↦ (Output.fail, w') ]

  -- a socket of the family for the host, if any
  unfoldable pub bind_to : Bool → Option (List ℕ) → ℕ → World → Option ℕ × World
  bind_to v6 host port w = net_udp_server sys v6 (getaddrinfo (some v6) host port w) w

  abbrev pub or_else : Option ℕ × World → (World → Option ℕ × World) → Option ℕ × World
  or_else (none, w) next = next w
  or_else (some fd, w) next = (some fd, w)

  -- The socket of `udpCreate`.
  unfoldable pub udp_socket : Option (List ℕ) → ℕ → Bool → World → Option ℕ × World
  unfolding bind_to
  udp_socket (some host) port ipv6_first w =
      if is_ipv6_addr host
      then bind_to true (some host) port w
      else bind_to false (some host) port w
  udp_socket none port true w = or_else (bind_to true none port w) (bind_to false none port)
  udp_socket none port false w = or_else (bind_to false none port w) (bind_to true none port)

  -- `udpCreate` where its allocation succeeds
  unfoldable pub udp_create : Option (List ℕ) → ℕ → Bool → ℤ → World → Option UdpConn × World
  unfolding udp_socket udp_conn_new
  udp_create host port ipv6_first timeout w =
      let (fd, w') = udp_socket host port ipv6_first w in
      elim fd [ none ↦ (none, w') | some s ↦ (some (udp_conn_new s timeout), w') ]

  -- `udpClose`; the connection is freed.
  unfoldable pub udp_close : UdpConn → World → World
  udp_close c w = close c.fd w

  -- `udpRead`: an empty datagram counts as the end of the connection.
  unfoldable pub udp_read : UdpConn → ℕ → World → Input × Option Info × UdpConn × World
  unfolding net_udp_read udp_give_up udp_add_time
  udp_read c buf_len w =
      let stopped = udp_del_time c in
      let (r, from, w') = net_udp_read c.fd buf_len w in
      elim r [
        | Input.fail ↦ (Input.fail, from, udp_give_up udp_error_read stopped, w')
        | Input.bytes [] ↦
            (Input.fail, from, udp_fire_close (record stopped { error = udp_error_closed }), w')
        | Input.bytes (b ∷ bs) ↦ (Input.bytes (b ∷ bs), from, udp_add_time stopped, w')
      ]

  -- `udpWrite` of the bytes `buf`
  unfoldable pub udp_write : UdpConn → List ℕ → Option Info → World → Output × UdpConn × World
  unfolding net_udp_write udp_give_up
  udp_write c buf sa w =
      let (r, w') = net_udp_write c.fd buf sa w in
      let failed : Output × UdpConn × World = (Output.fail, udp_give_up udp_error_write c, w') in
      elim r [
        | Output.fail ↦ failed
        | Output.crash ↦ failed
        | Output.count n ↦ if n == length buf then (Output.count n, c, w') else failed
      ]
