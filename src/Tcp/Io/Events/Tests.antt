-- ===== src/Tcp/Io/Events/Tests.antt =====
-- A connection that is read, written and timed: src/lib/protocol/tcp.c.
use xsocks.Base.{refl, false, List, [], ◌∷◌, none}
use xsocks.Base.Int.{pos, negsuc}
use xsocks.Net.Loopback.{Wire, wire}
use xsocks.Tcp.{TcpConn}
use xsocks.Tcp.Io.{no_handlers, init_flags, tcp_init}
use xsocks.Tcp.Io.Events.{
  Op, read_up_to, write_bytes, timeout_is, read_on, timed_out, IsReady, run, run-tcp_init,
}

abbrev conn : TcpConn
conn = record {
  fd = 0;
  flags = init_flags;
  timeout = pos 60;
  re = none;
  we = none;
  te = none;
  handlers = no_handlers;
  rbuf = 0 ∷ 0 ∷ [];
  rbuf_off = 0;
  wbuf = none;
  wbuf_len = pos 0;
  error = 0;
  fired = [];
  aborted = false;
}

abbrev three : Wire
three = record { pending = 1 ∷ 2 ∷ 3 ∷ []; burst = 1; sent = []; room = 3; refill = 3 }

abbrev ops : List Op
ops =
    read_on
    ∷ read_up_to 2
    ∷ timeout_is (negsuc 0)
    ∷ write_bytes (5 ∷ [])
    ∷ timeout_is (pos 9)
    ∷ timed_out
    ∷ []

run-tcp_init_example : IsReady (run wire ops (tcp_init conn) three).0
run-tcp_init_example = run-tcp_init wire ops conn three refl
