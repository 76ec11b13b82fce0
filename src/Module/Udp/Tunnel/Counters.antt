-- ===== src/Module/Udp/Tunnel/Counters.antt =====
-- `udpServerOnRead` of src/app/tunnel.c and the counter of its server.
use xsocks.Base.{ℕ, ◌≡◌, true, refl, List, none, arith}
use xsocks.Net.{Input}
use xsocks.Tcp.Io.{net_iobuf_len}
use xsocks.Udp.Shadowsocks.{UdpEnv, datagram_read}
use xsocks.Module.Udp.{
  UdpServer, UdpClient, UdpConfig, RemoteNew, no_socket, dangling, made, udp_client_new,
}
use xsocks.Module.Udp.Tunnel.{Ends, into_tunnel, on_local, tunnel_on_read}
use xsocks.Module.Udp.Counters.{Keeps, added_by, free-Keeps, send_first-Keeps, remote_new-Counted}

module _ (env : UdpEnv) (config : UdpConfig) (ends : Ends) where
  open env use {os, inet}
  open os use {sys}
  open sys use {World}

  into-Keeps :
      (buf : List ℕ) (client : UdpClient) (r : RemoteNew × UdpServer × World)
      → client.remote ≡ none
      → Keeps env config (added_by env config r.0) r.1 (into_tunnel env config ends buf client r)
  unfolding into_tunnel
  into-Keeps buf client (no_socket, server, w) none_yet b h def =
      ground (arith, h, none_yet, free-Keeps env config client server w b)
  into-Keeps buf client (dangling remote, server, w) none_yet b h def = absurd (def refl)
  into-Keeps buf client (made client' remote, server, w) none_yet b h def =
      send_first-Keeps env config buf client' _ server w b h def

  local-Keeps :
      (r : Input) (client : UdpClient) (server : UdpServer) (w : World)
      → client.remote ≡ none
      → Keeps env config 0 server (on_local env config ends r client server w)
  unfolding on_local
  local-Keeps Input.fail client server w e b h def =
      ground (arith, h, e, free-Keeps env config client server w b)
  local-Keeps (Input.bytes buf) client server w e b h def =
      into-Keeps buf client _ e b
        (remote_new-Counted env config client server true ends.remote_addr ends.remote_port w b
          (ground (arith, h)))
        def

  -- `udpServerOnRead` of the tunnel program counts the remote that it makes.
  pub tunnel-Keeps :
      (server : UdpServer) (w : World)
      → Keeps env config 0 server (tunnel_on_read env config ends server w)
  unfolding tunnel_on_read udp_client_new
  tunnel-Keeps server w =
      let r = datagram_read env server.conn net_iobuf_len w in
      local-Keeps r.0 (record udp_client_new { sa_client = r.1 }) (record server { conn = r.2 }) r.3
        refl
