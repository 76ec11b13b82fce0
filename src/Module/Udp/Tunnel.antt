-- ===== src/Module/Udp/Tunnel.antt =====
-- src/app/tunnel.c: the UDP callback of the tunnel program. A datagram goes to the server, with the
-- address of the tunnel's end in its header.
pub mod Counters
pub mod Delivery
use xsocks.Base.{ℕ, List, Option, none, some, true, false}
use xsocks.Net.{Input}
use xsocks.Tcp.Io.{net_iobuf_len}
use xsocks.Udp.Shadowsocks.{UdpEnv, Datagrams, datagram_read, udp_conn_init}
use xsocks.Module.Udp.{
  UdpServer, UdpClient, UdpConfig, UdpOutcome, alive, freed, undefined, RemoteNew, no_socket,
  dangling, made, udp_client_new, udp_remote_new, UdpResult, free_client, free_dangling, send_first,
}

-- The addresses of the configuration: the server, and the end of the tunnel.
pub record Ends : Type 0 where
  pub remote_addr : List ℕ
  pub remote_port : ℕ
  pub tunnel_addr : List ℕ
  pub tunnel_port : ℕ

module _ (env : UdpEnv) (config : UdpConfig) (ends : Ends) where
  open env use {os}
  open os use {sys}
  open sys use {World}

  -- behind `udpRemoteNew`
  pub into_tunnel : List ℕ → UdpClient → RemoteNew × UdpServer × World → UdpResult env config
  unfolding free_client free_dangling send_first udp_conn_init
  into_tunnel buf client (no_socket, server, w) = free_client env config client server w
  into_tunnel buf client (dangling remote, server, w) =
      free_dangling env config client remote server w
  into_tunnel buf client (made client' remote, server, w) =
      let remote' = udp_conn_init env remote ends.tunnel_addr ends.tunnel_port in
      send_first env config buf client' remote' server w

  -- behind UDP_READ
  pub on_local : Input → UdpClient → UdpServer → World → UdpResult env config
  unfolding into_tunnel udp_remote_new free_client
  on_local Input.fail client server w = free_client env config client server w
  on_local (Input.bytes buf) client server w =
      into_tunnel buf client
        (udp_remote_new env config client server true ends.remote_addr ends.remote_port w)

  -- `udpServerOnRead` of tunnel.c
  pub tunnel_on_read : UdpServer → World → UdpResult env config
  unfolding on_local datagram_read udp_client_new
  tunnel_on_read server w =
      let (r, from, conn, w') = datagram_read env server.conn net_iobuf_len w in
      on_local r (record udp_client_new { sa_client = from }) (record server { conn = conn }) w'
