-- ===== src/Tcp/Io/Events.antt =====
-- The events of a connection: the asserts of the ADD_EVENT macros of src/lib/protocol/proxy.h hold from
-- `tcpInit` of src/lib/protocol/tcp.c on.
mod Tests
use xsocks.Base.{
  ℕ, ◌+◌, ◌≡◌, refl, Bool, true, false, not, ◌||◌, List, [], ◌∷◌, Option, none, some, arith,
  if◌then◌else◌,
}
use xsocks.Base.Int.{ℤ, pos, is_pos}
use xsocks.Net.{Os, Input, Output, net_tcp_read, net_tcp_write}
use xsocks.Tcp.{
  TcpConn, Event, is_null, add_read, add_write, add_time, del_read, del_write, del_time, error_read,
  error_write, error_closed, fire_error, fire_close, give_up, set_timeout,
}
use xsocks.Tcp.Io.{
  tcp_init, tcp_read, tcp_write, tcp_conn_init, tcp_check_connect_done, connecting_done,
  fire_connect, handle_tcp_connection, tcp_conn_read_handler, tcp_conn_timeout_handler,
}

-- What is done to a connection between `tcpInit` and `tcpClose`.
pub data Op : Type 0 where
  read_up_to : ℕ → Op
  write_bytes : List ℕ → Op
  timeout_is : ℤ → Op
  read_on write_on read_off write_off readable handled timed_out : Op

-- The events are there that the ADD_EVENT macros assert, and no assert has failed.
pub record IsReady (c : TcpConn) : Type 0 where
  pub read : is_null c.re ≡ false
  pub write : is_null c.we ≡ false
  pub time : is_pos c.timeout ≡ true → is_null c.te ≡ false
  pub sane : c.aborted ≡ false

tcp_init-IsReady : (c : TcpConn) → c.aborted ≡ false → IsReady (tcp_init c)
unfolding tcp_init set_timeout add_time add_write
tcp_init-IsReady c h = ground arith

give_up-IsReady : (code : ℕ) (c : TcpConn) → IsReady c → IsReady (give_up code c)
unfolding give_up fire_error fire_close
give_up-IsReady code c v = ground (arith, v)

fire_close-IsReady : (c : TcpConn) → IsReady c → IsReady (fire_close c)
unfolding fire_close
fire_close-IsReady c v = ground (arith, v)

add_time-IsReady : (c : TcpConn) → IsReady c → IsReady (add_time c)
unfolding add_time
add_time-IsReady c v = ground (arith, v)

set_timeout-IsReady : (c : TcpConn) (t : ℤ) → IsReady c → IsReady (set_timeout c t)
unfolding set_timeout add_time
set_timeout-IsReady c t v = ground (arith, v)

del_time-IsReady : (c : TcpConn) → IsReady c → IsReady (del_time c)
del_time-IsReady c v = ground (arith, v)

error-IsReady : (code : ℕ) (c : TcpConn) → IsReady c → IsReady (record c { error = code })
error-IsReady code c v = record { read = v.read; write = v.write; time = v.time; sane = v.sane }

module _ (os : Os) where
  open os use {World}

  -- one operation, and its effect on the kernel
  abbrev pub step : Op → TcpConn → World → TcpConn × World
  step (read_up_to n) c w = let (r, c', w') = tcp_read os c n w in (c', w')
  step (write_bytes bs) c w = let (r, c', w') = tcp_write os c bs w in (c', w')
  step (timeout_is t) c w = (set_timeout c t, w)
  step read_on c w = (add_read c, w)
  step write_on c w = (add_write c, w)
  step read_off c w = (del_read c, w)
  step write_off c w = (del_write c, w)
  step readable c w = tcp_conn_read_handler os c w
  step handled c w = let (r, c', w') = handle_tcp_connection os c w in (c', w')
  step timed_out c w = (tcp_conn_timeout_handler c, w)

  pub run : List Op → TcpConn → World → TcpConn × World
  run [] c w = (c, w)
  run (o ∷ ops) c w = let (c', w') = step o c w in run ops c' w'

  tcp_read-IsReady : (c : TcpConn) (n : ℕ) (w : World) → IsReady c → IsReady (tcp_read os c n w).1
  unfolding tcp_read
  tcp_read-IsReady c n w v =
      let stopped = del_time c in
      let u = del_time-IsReady c v in
      ground (
        arith,
        give_up-IsReady error_read stopped u,
        add_time-IsReady stopped u,
        fire_close-IsReady (record stopped { error = error_closed })
            (error-IsReady error_closed stopped u),
      )

  tcp_write-IsReady :
      (c : TcpConn) (bs : List ℕ) (w : World) → IsReady c → IsReady (tcp_write os c bs w).1
  unfolding tcp_write
  tcp_write-IsReady c bs w v = ground (arith, v, give_up-IsReady error_write c v)

  handle-IsReady : (c : TcpConn) (w : World) → IsReady c → IsReady (handle_tcp_connection os c w).1
  unfolding handle_tcp_connection tcp_check_connect_done connecting_done fire_connect fire_close
      tcp_conn_init
  handle-IsReady c w v = ground (arith, v)

  readable-IsReady :
      (c : TcpConn) (w : World) → IsReady c → IsReady (tcp_conn_read_handler os c w).0
  unfolding tcp_conn_read_handler
  readable-IsReady c w v = ground (arith, handle-IsReady c w v)

  step-IsReady : (o : Op) (c : TcpConn) (w : World) → IsReady c → IsReady (step o c w).0
  unfolding add_read add_write tcp_conn_timeout_handler fire_close
  step-IsReady (read_up_to n) c w v = tcp_read-IsReady c n w v
  step-IsReady (write_bytes bs) c w v = tcp_write-IsReady c bs w v
  step-IsReady (timeout_is t) c w v = set_timeout-IsReady c t v
  step-IsReady read_on c w v = ground (arith, v)
  step-IsReady write_on c w v = ground (arith, v)
  step-IsReady read_off c w v = ground (arith, v)
  step-IsReady write_off c w v = ground (arith, v)
  step-IsReady readable c w v = readable-IsReady c w v
  step-IsReady handled c w v = handle-IsReady c w v
  step-IsReady timed_out c w v = ground (arith, v)

  run-IsReady : (ops : List Op) (c : TcpConn) (w : World) → IsReady c → IsReady (run ops c w).0
  unfolding run
  run-IsReady [] c w v = v
  run-IsReady (o ∷ ops) c w v = run-IsReady ops (step o c w).0 (step o c w).1 (step-IsReady o c w v)

  -- From `tcpInit` on, whatever is read, written, added, deleted or handled, and whatever timeouts are
  -- set, no assert of the ADD_EVENT macros fails: the events for reading and writing are there, and the
  -- timer is while the timeout is positive. (The connection had no failed assert before.)
  pub run-tcp_init :
      (ops : List Op) (c : TcpConn) (w : World)
      → c.aborted ≡ false
      → IsReady (run ops (tcp_init c) w).0
  run-tcp_init ops c w h = run-IsReady ops (tcp_init c) w (tcp_init-IsReady c h)
