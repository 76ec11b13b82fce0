-- ===== src/Tcp.antt =====
-- src/lib/protocol/tcp.c and tcp.h: a connection, its events and timer, reading, writing and the
-- connection handshake. The two functions of tcp.c that pipe one connection to another are in
-- `Pipe`, behind the protocols whose `read` and `write` they call.
--
-- A callback is recorded in `fired` at the point where the code calls it. What a callback does to
-- the connection is in the modules of the programs. `aborted` is set where an `assert` fails.
pub mod Io
pub mod Listener
pub mod Frame
use xsocks.Base.{
  ℕ, ◌+◌, Bool, true, false, not, ◌&&◌, ◌||◌, List, [], ◌∷◌, ◌++◌, Option, none, some, length, take,
  ltb, ◌==◌, if◌then◌else◌,
}
use xsocks.Base.Int.{ℤ, pos, negsuc, is_pos, ℤ-eqb, mul_ℕ, int32}
use xsocks.Net.{
  Os, Input, Output, net_tcp_read, net_tcp_write, eagain, eisconn, ealready, einprogress,
}

-- The bits of `flags`; TCP_FLAG_INIT is always set.
pub record Flags : Type 0 where
  pub connecting : Bool
  pub connected : Bool
  pub piped : Bool
  pub closed : Bool

-- An `event *` that is not NULL: its `id` (a descriptor, or the milliseconds of a timer), and
-- whether it is added to the loop (`e->el` is not NULL).
pub record Event : Type 0 where
  pub id : ℤ
  pub added : Bool

-- Which callbacks are installed.
pub record Handlers : Type 0 where
  pub on_read : Bool
  pub on_write : Bool
  pub on_timeout : Bool
  pub on_close : Bool
  pub on_error : Bool
  pub on_connect : Bool

pub data Status : Type 0 where
  tcp_ok tcp_err : Status

-- A call of a callback.
pub data Fired : Type 0 where
  read_fired write_fired timeout_fired close_fired error_fired : Fired
  connect_fired : Status → Fired

-- `tcpConn`. `rbuf` is the memory of the read buffer, `rbuf_len` its length. `wbuf` points into the
-- read buffer of the other end of the pipe: it is an offset, or NULL.
pub record TcpConn : Type 0 where
  pub fd : ℕ
  pub flags : Flags
  pub timeout : ℤ
  pub re : Option Event
  pub we : Option Event
  pub te : Option Event
  pub handlers : Handlers
  pub rbuf : List ℕ
  pub rbuf_off : ℕ
  pub wbuf : Option ℕ
  pub wbuf_len : ℤ
  pub error : ℕ
  pub fired : List Fired
  pub aborted : Bool

-- the codes in `err`
abbrev pub error_read : ℕ
error_read = 10000

abbrev pub error_write : ℕ
error_write = 10001

abbrev pub error_timeout : ℕ
error_timeout = 10002

abbrev pub error_closed : ℕ
error_closed = 10003

abbrev pub error_connect : ℕ
error_connect = 10004

-- The macros ADD_EVENT, DEL_EVENT and CLR_EVENT of proxy.h and event.h on a field. `eventAdd` marks
-- the event as added, `eventDel` as not added, and CLR_EVENT leaves NULL.
abbrev pub added : Option Event → Option Event
added none = none
added (some e) = some (record e { added = true })

abbrev pub deleted : Option Event → Option Event
deleted none = none
deleted (some e) = some (record e { added = false })

abbrev pub is_null : Option Event → Bool
is_null none = true
is_null (some e) = false

unfoldable pub add_read : TcpConn → TcpConn
add_read c = record c { re = added c.re; aborted = c.aborted || is_null c.re }

unfoldable pub add_write : TcpConn → TcpConn
add_write c = record c { we = added c.we; aborted = c.aborted || is_null c.we }

-- ADD_EVENT_TIME does nothing without a positive timeout.
unfoldable pub add_time : TcpConn → TcpConn
add_time c =
    if is_pos c.timeout
    then record c { te = added c.te; aborted = c.aborted || is_null c.te }
    else c

abbrev pub del_read : TcpConn → TcpConn
del_read c = record c { re = deleted c.re }

abbrev pub del_write : TcpConn → TcpConn
del_write c = record c { we = deleted c.we }

abbrev pub del_time : TcpConn → TcpConn
del_time c = record c { te = deleted c.te }

-- The FIRE macros of proxy.h: a callback that is not installed is not called.
abbrev pub fire : Bool → Fired → TcpConn → TcpConn
fire installed f c = if installed then record c { fired = c.fired ++ (f ∷ []) } else c

unfoldable pub fire_error : TcpConn → TcpConn
fire_error c = fire c.handlers.on_error error_fired c

unfoldable pub fire_close : TcpConn → TcpConn
fire_close c = fire c.handlers.on_close close_fired c

-- `FIRE_ERROR(c); FIRE_CLOSE(c);` with `err` set
unfoldable pub give_up : ℕ → TcpConn → TcpConn
unfolding fire_error fire_close
give_up code c = fire_close (fire_error (record c { error = code }))

abbrev milliseconds : ℕ
milliseconds = 1000

abbrev time_event : ℤ → Option Event
time_event period = some (record { id = period; added = false })

-- the new timer of `tcpSetTimeout`, for the timeout that is in the connection; the product is an `int`
-- that wraps around
abbrev pub with_timer : TcpConn → TcpConn
with_timer c = record c { te = time_event (int32 (mul_ℕ milliseconds c.timeout)) }

-- `tcpSetTimeout`
unfoldable pub set_timeout : TcpConn → ℤ → TcpConn
unfolding add_time
set_timeout c timeout =
    let cleared =
      if not (is_pos timeout) || not (ℤ-eqb timeout c.timeout) then record c { te = none } else c in
    let armed = if is_pos timeout then add_time (with_timer cleared) else cleared in
    record armed { timeout = timeout }
