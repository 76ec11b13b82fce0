-- ===== src/Module/Udp/Server/Counters.antt =====
-- `udpServerOnRead` of src/app/server.c and the counter of its server.
use xsocks.Base.{ℕ, ◌≡◌, false, refl, List, none, arith}
use xsocks.Net.{Input}
use xsocks.Socks5.{Parsed, out_of_bounds, err, ok, c_string}
use xsocks.Tcp.Io.{net_iobuf_len}
use xsocks.Udp.Shadowsocks.{UdpEnv, datagram_read}
use xsocks.Module.Udp.{
  free_client, free_dangling, send_first, settle_remote, udp_connection_free, UdpServer, UdpClient,
  UdpConfig, RemoteNew, no_socket, dangling, made, udp_client_new, udp_remote_new,
}
use xsocks.Module.Udp.Server.{after_remote, to_header, on_received, udp_server_on_read}
use xsocks.Module.Udp.Counters.{Keeps, added_by, free-Keeps, send_first-Keeps, remote_new-Counted}

module _ (env : UdpEnv) (config : UdpConfig) where
  open env use {os, inet}
  open os use {sys}
  open sys use {World}

  after-Keeps :
      (buf : List ℕ) (client : UdpClient) (r : RemoteNew × UdpServer × World)
      → client.remote ≡ none
      → Keeps env config (added_by env config r.0) r.1 (after_remote env config buf client r)
  unfolding after_remote
  after-Keeps buf client (no_socket, server, w) none_yet b h def =
      ground (arith, h, none_yet, free-Keeps env config client server w b)
  after-Keeps buf client (dangling remote, server, w) none_yet b h def = absurd (def refl)
  after-Keeps buf client (made client' remote, server, w) none_yet b h def =
      send_first-Keeps env config buf client' remote server w b h def

  header-Keeps :
      (buf : List ℕ) (client : UdpClient) (server : UdpServer) (w : World) (p : Parsed)
      → client.remote ≡ none
      → Keeps env config 0 server (to_header env config buf client server w p)
  unfolding to_header
  header-Keeps buf client server w out_of_bounds e b h def = absurd (def refl)
  header-Keeps buf client server w err e b h def = absurd (def refl)
  header-Keeps buf client server w (ok n a) e b h def =
      let r = udp_remote_new env config client server false (c_string a.host) a.port w in
      after-Keeps buf client r e b
        (remote_new-Counted env config client server false (c_string a.host) a.port w b
          (ground (arith, h)))
        def

  received-Keeps :
      (r : Input) (client : UdpClient) (server : UdpServer) (w : World)
      → client.remote ≡ none
      → Keeps env config 0 server (on_received env config r client server w)
  unfolding on_received
  received-Keeps Input.fail client server w e b h def =
      ground (arith, h, e, free-Keeps env config client server w b)
  received-Keeps (Input.bytes buf) client server w e b h def =
      header-Keeps buf client server w _ e b h def

  -- `udpServerOnRead` of the server program counts the remote that it makes.
  pub on_read-Keeps :
      (server : UdpServer) (w : World)
      → Keeps env config 0 server (udp_server_on_read env config server w)
  unfolding udp_server_on_read udp_client_new
  on_read-Keeps server w =
      let r = datagram_read env server.conn net_iobuf_len w in
      received-Keeps r.0 (record udp_client_new { sa_client = r.1 }) (record server { conn = r.2 })
        r.3 refl

  -- What follows `udpRemoteNew` leaves the server's socket alone.
  pub after_remote-conn :
      (buf : List ℕ) (client : UdpClient) (r : RemoteNew × UdpServer × World)
      → (after_remote env config buf client r).1.conn ≡ r.1.conn
  unfolding after_remote free_client free_dangling send_first settle_remote udp_connection_free
  after_remote-conn buf client (no_socket, server, w) = refl
  after_remote-conn buf client (dangling remote, server, w) = refl
  after_remote-conn buf client (made client' remote, server, w) = ground arith
