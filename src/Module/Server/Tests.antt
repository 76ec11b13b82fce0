-- ===== src/Module/Server/Tests.antt =====
-- A client of the server program on a small kernel: src/app/server.c.
use xsocks.Base.{ℕ, ◌≡◌, refl, ap, true, false, List, [], ◌∷◌, ◌++◌, none, some, arith}
use xsocks.Base.Int.{pos}
use xsocks.Net.{
  Input, net_tcp_read, net_tcp_write, read_loop, read_result, write_loop, write_result,
}
use xsocks.Net.Loopback.{Wire, wire, wire_posix}
use xsocks.Socks5.Example.{name, encoded, name-domain, name-c_string, name-encoded}
use xsocks.Tcp.{tcp_ok, add_time}
use xsocks.Tcp.Io.{tcp_accept, tcp_read, tcp_write}
use xsocks.TcpShadowsocks
use xsocks.TcpShadowsocks.{Shadowsocks, plain}
use xsocks.Conn.{raw, shadowsocks, conn_write}
use xsocks.Conn.Loopback.{crypto, env, conn}
use xsocks.Module.{Client, Counts, increment, tcp_client_new, Outcome, alive, freed, prepare}
use xsocks.Module.Server.{Outside, on_accept, on_read, on_connect, on_left_written}
use xsocks.Module.Server.FirstPacket.{Waiting, on_read-first}
use xsocks.Module.Server.Connected.{Sent, on_connect-Sent}
use xsocks.Module.Server.Counters.{server_program}
use xsocks.Module.Piping.{remote_readable, on_pipe_event}
use xsocks.Module.Counters.{left}
use xsocks.Module.Run.{Serving, accepted, piped, Reach, here, next, IsCounted, Reach-IsCounted}

-- every connecting gives descriptor 1, and nothing is blocked
abbrev outside : Outside env
outside = record {
  blocked = λ atyp host. false;
  dial = λ host port w. (some 1, w);
  timeout = pos 60;
}

abbrev new_client : Shadowsocks crypto
new_client = record {
  state = TcpShadowsocks.init;
  tmp_buf = [];
  tmp_buf_off = 0;
  addrbuf_dest = [];
  e_ctx = tt;
  d_ctx = tt;
}

abbrev buffer : List ℕ
buffer = 0 ∷ 0 ∷ 0 ∷ 0 ∷ 0 ∷ 0 ∷ 0 ∷ 0 ∷ 0 ∷ 0 ∷ 0 ∷ 0 ∷ []

-- the byte of the cipher, the address, and two bytes for the destination
abbrev first_packet : Wire
first_packet = record {
  pending = 7 ∷ (encoded ++ (50 ∷ 51 ∷ []));
  burst = 20;
  sent = [];
  room = 9;
  refill = 9;
}

abbrev one_client : Counts
one_client = record { client_count = pos 1; remote_count = pos 0 }

packet-read :
    (tcp_read wire (conn 0 true buffer) 12 first_packet).0
    ≡ Input.bytes (7 ∷ (encoded ++ (50 ∷ 51 ∷ [])))
unfolding tcp_read net_tcp_read read_loop read_result add_time
packet-read = refl

on_read-first_example :
    let client : Client crypto = record {
      conn = record { base = conn 0 true buffer; kind = shadowsocks new_client };
      remote = none;
    } in
    (client' : Client crypto) × (on_read env outside client one_client first_packet ≡ (
      alive client',
      record one_client { remote_count = increment (pos 0) },
      (tcp_read wire (conn 0 true buffer) 12 first_packet).2,
    ))
    × Waiting env outside 1 (50 ∷ 51 ∷ []) client'
on_read-first_example =
    on_read-first env outside (conn 0 true buffer) new_client one_client first_packet 7
      (encoded ++ (50 ∷ 51 ∷ [])) name 443 encoded (50 ∷ 51 ∷ []) 1 refl refl packet-read refl
      name-domain name-c_string (omega arith) (omega arith) name-encoded refl refl

-- a client with two bytes for its remote
abbrev waiting : Client crypto
waiting = record {
  conn = record { base = record (conn 0 false (50 ∷ 51 ∷ 0 ∷ [])) { rbuf_off = 2 }; kind = raw };
  remote = some (record { base = conn 1 false buffer; kind = raw });
}

abbrev client_of : Outcome crypto → Client crypto
client_of (alive c) = c
client_of freed = waiting
client_of Outcome.undefined = waiting

abbrev connected : Outcome crypto × Counts × Wire
connected =
    on_connect env outside waiting (record { base = conn 1 false buffer; kind = raw }) tcp_ok
      one_client first_packet

connected-alive : connected ≡ (alive (client_of connected.0), connected.1, connected.2)
unfolding on_connect on_left_written prepare conn_write tcp_write net_tcp_write write_loop
    write_result
connected-alive = refl

on_connect-Sent_example :
    Sent env outside wire_posix waiting (client_of connected.0) 1 first_packet connected.2
on_connect-Sent_example =
    on_connect-Sent env outside wire_posix waiting (client_of connected.0) (conn 1 false buffer)
      one_client connected.1 first_packet connected.2 refl connected-alive

-- a client with its remote
abbrev relaying : Client crypto
relaying = record {
  conn = record { base = conn 0 true buffer; kind = shadowsocks new_client };
  remote = some (record { base = conn 1 true buffer; kind = raw });
}

abbrev relay : Serving env (server_program env outside)
relay = record {
  clients = relaying ∷ [];
  counts = record { client_count = pos 1; remote_count = pos 1 };
  world = first_packet;
}

abbrev accept : Outcome crypto × Counts
accept = on_accept env outside (some 0) relay.counts

abbrev serving : Serving env (server_program env outside)
serving = record {
  clients = client_of accept.0 ∷ relaying ∷ [];
  counts = accept.1;
  world = first_packet;
}

-- the remote is readable
abbrev answer : Outcome crypto × Counts × Wire
answer =
    on_pipe_event env remote_readable relaying (record { base = conn 1 true buffer; kind = raw })
      serving.counts serving.world

abbrev served : Serving env (server_program env outside)
served = record {
  clients = client_of accept.0 ∷ (left env answer.0 ++ []);
  counts = answer.1;
  world = answer.2;
}

accept-one : on_accept env outside (some 0) relay.counts ≡ (alive (client_of accept.0), accept.1)
unfolding on_accept tcp_client_new tcp_accept
accept-one = refl

serves : Reach env (server_program env outside) relay served
serves =
    next
      (next here (
        accepted (some 0) (alive (client_of accept.0))
          (ap (λ r. (r.0, r.1, first_packet)) accept-one) (λ e. cc) refl))
      (piped (client_of accept.0 ∷ []) [] relaying
        (record { base = conn 1 true buffer; kind = raw }) remote_readable answer.0 refl refl refl
        refl)

Reach-IsCounted_example : IsCounted env (server_program env outside) served
Reach-IsCounted_example = Reach-IsCounted env (server_program env outside) (refl, refl) serves
