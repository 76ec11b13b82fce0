-- ===== src/TcpSocks5/Tests.antt =====
-- A SOCKS5 handshake on a small kernel: src/lib/protocol/tcp_socks5.c.
use xsocks.Base.{ℕ, ◌≡◌, refl, ◌↔◌, true, false, List, [], ◌∷◌, ◌++◌, none, some, arith}
use xsocks.Base.Int.{pos}
use xsocks.Net.{
  Input, net_tcp_read, net_tcp_write, read_loop, read_result, write_loop, write_result,
}
use xsocks.Net.Loopback.{Wire, wire, wire_posix}
use xsocks.Tcp.{add_time}
use xsocks.Tcp.Io.{tcp_read, tcp_write}
use xsocks.Socks5.Example.{inet, name, encoded, name-domain, name-c_string, name-encoded}
use xsocks.Conn.Loopback.{conn}
use xsocks.TcpSocks5.{
  Socks5, State, init, handshake, auth_accepts, conn_read, conn_write, on_reply, reply, write_in,
}
use xsocks.TcpSocks5.Auth.{MethodRequest, auth_accepts-MethodRequest, conn_read-request}
use xsocks.TcpSocks5.Session.{Session, writes, Reach, here, next, data_of, Greeted, Reach-Greeted}

abbrev zeros : List ℕ
zeros = 0 ∷ 0 ∷ 0 ∷ 0 ∷ 0 ∷ 0 ∷ 0 ∷ 0 ∷ 0 ∷ 0 ∷ 0 ∷ 0 ∷ []

auth_accepts-MethodRequest_example :
    (auth_accepts (5 ∷ 2 ∷ 1 ∷ 0 ∷ []) ≡ true) ↔ MethodRequest (5 ∷ 2 ∷ 1 ∷ 0 ∷ [])
auth_accepts-MethodRequest_example = auth_accepts-MethodRequest (5 ∷ 2 ∷ 1 ∷ 0 ∷ [])

-- a request to connect to "a.b", port 443, is to come
abbrev asked : Wire
asked = record { pending = 5 ∷ 1 ∷ 0 ∷ encoded; burst = 20; sent = []; room = 99; refill = 99 }

abbrev server : State → Socks5
server state = record { is_client = false; state = state; addrbuf_dest = none }

asked-read :
    (tcp_read wire (conn 0 true zeros) 12 asked).0 ≡ Input.bytes (5 ∷ 1 ∷ 0 ∷ (encoded ++ []))
unfolding tcp_read net_tcp_read read_loop read_result add_time
asked-read = refl

conn_read-request_example :
    let (r, c', w') = tcp_read wire (conn 0 true zeros) 12 asked in
    conn_read inet wire (conn 0 true zeros) (server handshake) 12 asked
    ≡ (r, c', record (server handshake) { addrbuf_dest = some encoded }, w')
conn_read-request_example =
    conn_read-request inet wire (conn 0 true zeros) (server handshake) 12 asked 0 name 443 encoded
      [] refl refl name-domain name-c_string (omega arith) (omega arith) name-encoded asked-read

abbrev calls : Wire
calls = record { pending = 5 ∷ 1 ∷ 0 ∷ []; burst = 20; sent = []; room = 99; refill = 99 }

abbrev opened : Session wire wire_posix
opened = record { base = conn 1 true zeros; proto = server init; world = calls }

-- one write of the session
abbrev write : List ℕ → Session wire wire_posix → Session wire wire_posix
write mem s =
    let (r, c, p, w) = conn_write wire s.base s.proto mem (pos 3) s.world in
    record { base = c; proto = p; world = w }

-- the two replies and three bytes of data
abbrev talked : Session wire wire_posix
talked = write (8 ∷ 8 ∷ 8 ∷ []) (write [] (write [] opened))

talk : Reach wire wire_posix inet opened talked
unfolding conn_write write_in reply on_reply tcp_write net_tcp_write write_loop write_result
talk =
    next (next (next here (writes [] (pos 3) 2 refl)) (writes [] (pos 3) 10 refl))
      (writes (8 ∷ 8 ∷ 8 ∷ []) (pos 3) 3 refl)

talk-data : data_of wire wire_posix inet talk ≡ 8 ∷ 8 ∷ 8 ∷ []
unfolding data_of talk conn_write write_in reply on_reply tcp_write net_tcp_write write_loop
    write_result
talk-data = refl

Reach-Greeted_example : Greeted wire wire_posix [] (data_of wire wire_posix inet talk) talked
Reach-Greeted_example = Reach-Greeted wire wire_posix inet [] refl refl talk
