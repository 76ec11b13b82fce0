-- ===== src/Module/Udp/Tests.antt =====
-- Runs of the tunnel and the server program on small datagrams.
use xsocks.Base.{ℕ, ◌≡◌, refl, Bool, true, false, List, [], ◌∷◌, ◌++◌, some}
use xsocks.Base.Int.{pos, negsuc}
use xsocks.Net.{Input}
use xsocks.Socks5.Example.{name, encoded}
use xsocks.Udp.{udp_write}
use xsocks.Udp.Loopback.{
  Pool, peer, away, pool, udp_env, inverse, header, pool_with, after_socket, socket_made,
  name_found, name_lost, datagrams,
}
use xsocks.Udp.Shadowsocks.{raw, shadowsocks, datagram_read, datagram_write}
use xsocks.Udp.Shadowsocks.RoundTrip.{datagram_read-datagram_write}
use xsocks.Module.Udp.{UdpServer, UdpClient, UdpConfig, alive, freed, undefined, udp_remote_on_read}
use xsocks.Module.Udp.Remote.{Resolves, remote_of}
use xsocks.Module.Udp.Answer.{without_one}
use xsocks.Module.Udp.Late.{late-answer}
use xsocks.Module.Udp.EndToEnd.{tunnel-server}
use xsocks.Module.Udp.Run.{
  server_program, UdpServing, IsUdpCounted, datagram, here, next, UdpReach-IsUdpCounted,
}
use xsocks.Module.Udp.Server.{udp_server_on_read}
use xsocks.Module.Udp.Server.Delivery.{
  Arrives, with_header, udp_server_on_read-delivers, udp_server_on_read-unresolved,
}
use xsocks.Module.Udp.Tunnel.{Ends, tunnel_on_read}

abbrev config : UdpConfig
config = record { ipv6_first = false; timeout = pos 0 }

-- the server is at "s", the end of the tunnel at "a.b", port 443
abbrev ends : Ends
ends = record { remote_addr = b's' ∷ []; remote_port = 8388; tunnel_addr = name; tunnel_port = 443 }

abbrev tunnel : UdpServer
tunnel = record { conn = datagrams raw; remote_count = pos 0 }

abbrev server : UdpServer
server = record { conn = datagrams (shadowsocks []); remote_count = pos 0 }

-- the cipher text of the header and "hi"
abbrev cipher_text : List ℕ
cipher_text = 7 ∷ encoded ++ (b'h' ∷ b'i' ∷ [])

resolves :
    (host : List ℕ) (port : ℕ) (w : Pool)
    → w.dns ≡ true
    → Resolves udp_env config host port w.next away w (after_socket w)
resolves host port w e = record { socket = socket_made w; address = rw e (name_found host) }

abbrev incoming : Bool → Pool
incoming dns = pool_with cipher_text dns

arrives :
    (dns : Bool)
    → Arrives udp_env config server name 443 encoded
        (b'h' ∷ b'i' ∷ [])
        peer
        (incoming dns)
        (incoming dns)
arrives dns = record {
  old = [];
  secure = refl;
  first = 7;
  rest = encoded ++ (b'h' ∷ b'i' ∷ []);
  received = incoming dns;
  got = refl;
  decrypted = refl;
  header = header;
}

datagram_read-datagram_write_example :
    ((datagram_write udp_env
        (datagrams (shadowsocks encoded))
        (b'h' ∷ b'i' ∷ [])
        (some away)
        (pool_with [] true)).2
      ≡ (udp_write pool
          (datagrams (shadowsocks encoded)).base
          cipher_text
          (some away)
          (pool_with [] true)).2)
    × ((datagram_read udp_env (datagrams (shadowsocks [])) 16384 (incoming true)).0
        ≡ Input.bytes (b'h' ∷ b'i' ∷ []))
    × ((datagram_read udp_env (datagrams (shadowsocks [])) 16384 (incoming true)).2.kind
        ≡ shadowsocks encoded)
datagram_read-datagram_write_example =
    datagram_read-datagram_write udp_env inverse (datagrams (shadowsocks encoded))
      (datagrams (shadowsocks [])) [] encoded (b'h' ∷ b'i' ∷ []) name 443 7
      (encoded ++ (b'h' ∷ b'i' ∷ [])) (some away) peer 16384 (pool_with [] true) (incoming true)
      (incoming true) header refl refl refl refl tt

abbrev delivered : Pool
delivered = record (after_socket (incoming true)) {
  outgoing = b'h' ∷ b'i' ∷ [];
  destination = some away;
}

delivered_run : udp_server_on_read udp_env config server (incoming true) ≡ (
  alive (record {
    remote = some (remote_of udp_env config false 5);
    sa_client = some peer;
    sa_remote = some away;
  }),
  record (with_header udp_env config server encoded) { remote_count = pos 1 },
  delivered,
)
delivered_run =
    udp_server_on_read-delivers udp_env config server name 443 encoded (b'h' ∷ b'i' ∷ []) peer away
      5 (incoming true) (incoming true) (after_socket (incoming true)) delivered (arrives true)
      (resolves name 443 (incoming true) refl) refl

udp_server_on_read-unresolved_example :
    udp_server_on_read udp_env config server (incoming false) ≡ (
      undefined,
      record (with_header udp_env config server encoded) { remote_count = negsuc 0 },
      record (after_socket (incoming false)) { closed = 2 },
    )
udp_server_on_read-unresolved_example =
    udp_server_on_read-unresolved udp_env config server name 443 encoded (b'h' ∷ b'i' ∷ []) peer 5
      (incoming false) (incoming false) (after_socket (incoming false)) (arrives false)
      (socket_made (incoming false)) (name_lost name)

abbrev asked : Pool
asked = pool_with (b'h' ∷ b'i' ∷ []) true

abbrev sent_on : Pool
sent_on = record (after_socket asked) { outgoing = cipher_text; destination = some away }

tunnel-server_example :
    ((tunnel_on_read udp_env config ends tunnel asked).2 ≡ sent_on)
    × ((udp_server_on_read udp_env config server (incoming true)).2 ≡ delivered)
tunnel-server_example =
    tunnel-server udp_env inverse config config ends tunnel server b'h' (b'i' ∷ []) encoded 7
      (encoded ++ (b'h' ∷ b'i' ∷ [])) peer away peer away 5 5 [] asked sent_on (incoming true)
      (incoming true) (after_socket (incoming true)) delivered
      (record {
        plain = refl;
        w1 = asked;
        w2 = after_socket asked;
        w3 = after_socket asked;
        got = refl;
        server = resolves (b's' ∷ []) 8388 asked refl;
        header = header;
        encrypted = refl;
        sent = refl;
      })
      refl refl tt (resolves name 443 (incoming true) refl) refl

-- an older client, whose destination answers "no"
abbrev older : UdpClient
older = record {
  remote = some (datagrams raw);
  sa_client = some (record { v6 = true; addr = 1 ∷ [] });
  sa_remote = some peer;
}

abbrev no_comes : Pool
no_comes = pool_with (b'n' ∷ b'o' ∷ []) true

abbrev answered : Pool
answered = record no_comes {
  outgoing = 7 ∷ encoded ++ (b'n' ∷ b'o' ∷ []);
  destination = older.sa_client;
}

late-answer_example :
    udp_remote_on_read udp_env config older
      (datagrams raw)
      (udp_server_on_read udp_env config server (incoming true)).1
      no_comes
    ≡ (
      freed,
      without_one udp_env config (udp_server_on_read udp_env config server (incoming true)).1,
      record answered { closed = 1 },
    )
late-answer_example =
    late-answer udp_env config server name 443 encoded (b'h' ∷ b'i' ∷ []) peer (incoming true)
      (incoming true) older (datagrams raw) (7 ∷ encoded ++ (b'n' ∷ b'o' ∷ [])) b'n' (b'o' ∷ [])
      peer no_comes no_comes no_comes answered (arrives true) refl refl refl refl

abbrev starting : UdpServing udp_env config (server_program udp_env config)
starting = record { clients = []; server = server; world = incoming true }

abbrev serving : UdpServing udp_env config (server_program udp_env config)
serving = record {
  clients =
      record {
        remote = some (remote_of udp_env config false 5);
        sa_client = some peer;
        sa_remote = some away;
      }
      ∷ [];
  server = record (with_header udp_env config server encoded) { remote_count = pos 1 };
  world = delivered;
}

UdpReach-IsUdpCounted_example : IsUdpCounted udp_env config (server_program udp_env config) serving
UdpReach-IsUdpCounted_example =
    UdpReach-IsUdpCounted udp_env config (server_program udp_env config) {s = starting}
      {s' = serving} refl (next here (datagram _ delivered_run (λ e. cc) refl))
