-- ===== src/Module/Udp/Server.antt =====
-- src/app/server.c: the UDP callback of the server program. A datagram goes to the destination in its
-- header.
pub mod Counters
pub mod Delivery
use xsocks.Base.{ℕ, List, Option, none, some, true, false}
use xsocks.Net.{Input}
use xsocks.Socks5.{Parsed, out_of_bounds, err, ok, addr_parse, c_string, hostname_max_len}
use xsocks.Tcp.Io.{net_iobuf_len}
use xsocks.Udp.Shadowsocks.{UdpEnv, Datagrams, addr_dest, datagram_read}
use xsocks.Module.Udp.{
  UdpServer, UdpClient, UdpConfig, UdpOutcome, alive, freed, undefined, RemoteNew, no_socket,
  dangling, made, udp_client_new, udp_remote_new, UdpResult, free_client, free_dangling, send_first,
}

module _ (env : UdpEnv) (config : UdpConfig) where
  open env use {os, inet}
  open os use {sys}
  open sys use {World}

  -- Where `udpRemoteNew` returns NULL, `udpConnectionFree` frees the client, and with it the remote that
  -- it points to.
  pub after_remote : List ℕ → UdpClient → RemoteNew × UdpServer × World → UdpResult env config
  unfolding free_client free_dangling send_first
  after_remote buf client (no_socket, server, w) = free_client env config client server w
  after_remote buf client (dangling remote, server, w) =
      free_dangling env config client remote server w
  after_remote buf client (made client' remote, server, w) =
      send_first env config buf client' remote server w

  -- The result of `socks5AddrParse` is not looked at.
  pub to_header : List ℕ → UdpClient → UdpServer → World → Parsed → UdpResult env config
  unfolding after_remote udp_remote_new
  to_header buf client server w out_of_bounds = (undefined, server, w)
  to_header buf client server w err = (undefined, server, w)
  to_header buf client server w (ok n a) =
      after_remote buf client
        (udp_remote_new env config client server false (c_string a.host) a.port w)

  -- behind UDP_READ
  pub on_received : Input → UdpClient → UdpServer → World → UdpResult env config
  unfolding to_header free_client
  on_received Input.fail client server w = free_client env config client server w
  on_received (Input.bytes buf) client server w =
      to_header buf client server w (addr_parse inet (addr_dest server.conn.kind) hostname_max_len)

  -- `udpServerOnRead`
  pub udp_server_on_read : UdpServer → World → UdpResult env config
  unfolding on_received datagram_read udp_client_new
  udp_server_on_read server w =
      let (r, from, conn, w') = datagram_read env server.conn net_iobuf_len w in
      on_received r (record udp_client_new { sa_client = from }) (record server { conn = conn }) w'
