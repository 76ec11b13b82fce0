-- ===== src/Module/Udp/Tunnel/Delivery.antt =====
-- `udpServerOnRead` of src/app/tunnel.c: what is sent to the server, and that the server sends the
-- payload on to the end of the tunnel.
use xsocks.Base.{ℕ, ◌≡◌, refl, true, List, ◌∷◌, ◌++◌, some, length, arith}
use xsocks.Net.{SysWrite}
use xsocks.Net.Resolve.{Info}
use xsocks.Tcp.Io.{net_iobuf_len}
use xsocks.Udp.{Received, udp_add_time, udp_del_time}
use xsocks.Udp.Shadowsocks.{UdpEnv, Datagrams, raw, shadowsocks}
use xsocks.Udp.Shadowsocks.RoundTrip.{Header, datagram_read-raw, udp_conn_init-Header}
use xsocks.Module.{increment}
use xsocks.Module.Udp.{UdpServer, UdpClient, UdpConfig, alive, udp_client_new, udp_remote_new}
use xsocks.Module.Udp.Remote.{
  Resolves, remote_of, remote_of-fresh, udp_remote_new-made, send_first-shadowsocks,
}
use xsocks.Module.Udp.Server.Delivery.{client_from}
use xsocks.Module.Udp.Tunnel.{Ends, tunnel_on_read, on_local, into_tunnel}

module _ (env : UdpEnv) (config : UdpConfig) (ends : Ends) where
  open env use {os, inet, encrypt_all}
  open os use {sys, getaddrinfo, recvfrom, sendto}
  open sys use {World}

  -- the server behind UDP_READ
  abbrev pub with_timer : UdpServer → UdpServer
  with_timer server = record server {
    conn = record { base = udp_add_time (udp_del_time server.conn.base); kind = raw };
  }

  on_read-received :
      (server : UdpServer) (x : ℕ) (xs : List ℕ) (from : Info) (w w' : World)
      → server.conn.kind ≡ raw
      → recvfrom server.conn.base.fd net_iobuf_len w ≡ (Received.got (x ∷ xs) from, w')
      → tunnel_on_read env config ends server w
        ≡ into_tunnel env config ends (x ∷ xs) (client_from env config from) (
            udp_remote_new env config
              (client_from env config from)
              (with_timer server)
              true
              ends.remote_addr
              ends.remote_port
              w')
  unfolding tunnel_on_read udp_client_new on_local
  on_read-received server x xs from w w' k got =
      ground (arith, datagram_read-raw env server.conn net_iobuf_len x xs from w w' k got)

  -- A datagram that a client sends to the tunnel goes to the server, with the header of the tunnel's end
  -- in front, encrypted. Where the client's datagram is not empty, the socket for it can be made, the
  -- server has an address, the ciphers encrypt `header ++ payload` to `text`, and the kernel takes it,
  -- `udpServerOnRead` of the tunnel program leaves the kernel as sending exactly `text` to exactly that
  -- address does; it counts the remote, and remembers the sender for the answer.
  pub tunnel_on_read-encrypted :
      (server : UdpServer) (x : ℕ) (xs addr text : List ℕ) (from to : Info) (fd : ℕ)
      (w w1 w2 w3 w4 : World)
      → server.conn.kind ≡ raw
      → recvfrom server.conn.base.fd net_iobuf_len w ≡ (Received.got (x ∷ xs) from, w1)
      → Resolves env config ends.remote_addr ends.remote_port fd to w1 w2
      → Header env ends.tunnel_addr ends.tunnel_port addr
      → encrypt_all (addr ++ (x ∷ xs)) w2 ≡ (some text, w3)
      → sendto fd text (some to) w3 ≡ (SysWrite.wrote (length text), w4)
      → tunnel_on_read env config ends server w ≡ (
        alive (record {
          remote = some (record (remote_of env config true fd) { kind = shadowsocks addr });
          sa_client = some from;
          sa_remote = some to;
        }),
        record (with_timer server) { remote_count = increment server.remote_count },
        w4,
      )
  unfolding into_tunnel
  tunnel_on_read-encrypted server x xs addr text from to fd w w1 w2 w3 w4 k got r h enc sent =
      let fresh = remote_of-fresh env config true fd in
      let remote : Datagrams = record (remote_of env config true fd) { kind = shadowsocks addr } in
      let client : UdpClient = record {
        remote = some (remote_of env config true fd);
        sa_client = some from;
        sa_remote = some to;
      } in
      let server' : UdpServer = record (with_timer server) {
        remote_count = increment server.remote_count;
      } in
      ground (
        arith,
        on_read-received server x xs from w w1 k got,
        udp_remote_new-made env config (client_from env config from) (with_timer server) true
            ends.remote_addr ends.remote_port fd to w1 w2 r,
        udp_conn_init-Header env (remote_of env config true fd) ends.tunnel_addr ends.tunnel_port
            addr h,
        send_first-shadowsocks env config (x ∷ xs) text addr client remote server' w2 w3 w4 refl
            fresh.1 enc (rw fresh.0 sent),
      )
