-- ===== src/Module/Udp/Server/Delivery.antt =====
-- `udpServerOnRead` of src/app/server.c: where the payload of a datagram goes, and what comes of a
-- destination without an address.
use xsocks.Base.{
  ℕ, ◌≡◌, refl, ap, false, List, [], ◌∷◌, ◌++◌, append-nil, none, some, length, arith,
}
use xsocks.Net.{SysWrite}
use xsocks.Net.Resolve.{Info, net_err, udp_get_sock_addr_ex}
use xsocks.Socks5.{ok, addr_parse, hostname_max_len}
use xsocks.Tcp.Io.{net_iobuf_len}
use xsocks.TcpShadowsocks.Request.{domain, parse-encoded}
use xsocks.Udp.{Received, udp_socket, udp_add_time, udp_del_time, udp_close}
use xsocks.Udp.Shadowsocks.{UdpEnv, shadowsocks, udp_conn_of, datagram_close}
use xsocks.Udp.Shadowsocks.RoundTrip.{Header, datagram_read-Header}
use xsocks.Module.{increment, decrement}
use xsocks.Module.Udp.{
  UdpServer, UdpClient, UdpConfig, alive, undefined, udp_client_new, udp_remote_new,
  udp_connection_free, free_dangling, remote_free,
}
use xsocks.Module.Udp.Remote.{
  Resolves, remote_of, remote_of-fresh, udp_remote_new-made, udp_remote_new-dangling,
  send_first-raw,
}
use xsocks.Module.Udp.Server.{udp_server_on_read, on_received, to_header, after_remote}

module _ (env : UdpEnv) (config : UdpConfig) where
  open env use {os, inet, decrypt_all}
  open os use {sys, getaddrinfo, recvfrom, sendto}
  open sys use {World}

  -- A shadowsocks server receives the cipher text `x ∷ xs` from `from`, which decrypts to the header of
  -- `host` and `port` and a payload; the kernel is then at `w'`.
  pub record Arrives (server : UdpServer) (host : List ℕ) (port : ℕ) (addr payload : List ℕ)
      (from : Info) (w w' : World) : Type 0 where
    pub old : List ℕ
    pub secure : server.conn.kind ≡ shadowsocks old
    pub first : ℕ
    pub rest : List ℕ
    pub received : World
    pub got :
        recvfrom server.conn.base.fd net_iobuf_len w ≡ (Received.got (first ∷ rest) from, received)
    pub decrypted : decrypt_all (first ∷ rest) received ≡ (some (addr ++ payload), w')
    pub header : Header env host port addr

  -- the server, and the client, behind UDP_READ
  abbrev pub with_header : UdpServer → List ℕ → UdpServer
  with_header server addr = record server {
    conn = record { base = udp_add_time (udp_del_time server.conn.base); kind = shadowsocks addr };
  }

  abbrev pub client_from : Info → UdpClient
  client_from from = record { remote = none; sa_client = some from; sa_remote = none }

  Header-parsed :
      (host : List ℕ) (port : ℕ) (addr : List ℕ)
      → Header env host port addr
      → addr_parse inet addr hostname_max_len ≡ ok (length addr) (domain host port)
  Header-parsed host port addr h =
      rw (append-nil addr) at (parse-encoded inet host port addr [] h.name h.small h.p16 h.encoded)

  -- the payload is on its way to the host and port of the header
  pub on_read-Arrives :
      (server : UdpServer) (host : List ℕ) (port : ℕ) (addr payload : List ℕ) (from : Info)
      (w w' : World)
      → Arrives server host port addr payload from w w'
      → udp_server_on_read env config server w
        ≡ after_remote env config payload (client_from from) (
            udp_remote_new env config
              (client_from from)
              (with_header server addr)
              false
              host
              port
              w')
  unfolding udp_server_on_read udp_client_new on_received to_header
  on_read-Arrives server host port addr payload from w w' a = ground (
    arith,
    datagram_read-Header env server.conn a.old net_iobuf_len w a.received a.first a.rest from host
        port addr payload a.secure a.got (ap (λ r. r.0) a.decrypted) a.header,
    a.decrypted,
    Header-parsed host port addr a.header,
    a.header.str,
  )

  -- The payload of a datagram goes to the destination in its header, and nowhere else. Where a datagram
  -- arrives whose plain text is the header of a name and a port and a payload, the socket for it can be
  -- made, the name has an address, and the kernel takes the payload, `udpServerOnRead` of the server
  -- program leaves the kernel as sending exactly the payload to exactly that address does; it counts
  -- the remote, remembers the sender for the answer, and has the header as its own from then on.
  pub udp_server_on_read-delivers :
      (server : UdpServer) (host : List ℕ) (port : ℕ) (addr payload : List ℕ) (from to : Info)
      (fd : ℕ) (w w1 w2 w3 : World)
      → Arrives server host port addr payload from w w1
      → Resolves env config host port fd to w1 w2
      → sendto fd payload (some to) w2 ≡ (SysWrite.wrote (length payload), w3)
      → udp_server_on_read env config server w ≡ (
        alive (record {
          remote = some (remote_of env config false fd);
          sa_client = some from;
          sa_remote = some to;
        }),
        record (with_header server addr) { remote_count = increment server.remote_count },
        w3,
      )
  unfolding after_remote udp_conn_of
  udp_server_on_read-delivers server host port addr payload from to fd w w1 w2 w3 a r sent =
      let remote = remote_of env config false fd in
      let client : UdpClient = record {
        remote = some remote;
        sa_client = some from;
        sa_remote = some to;
      } in
      let server' : UdpServer = record (with_header server addr) {
        remote_count = increment server.remote_count;
      } in
      let fresh = remote_of-fresh env config false fd in
      ground (
        arith,
        on_read-Arrives server host port addr payload from w w1 a,
        udp_remote_new-made env config (client_from from) (with_header server addr) false host port
            fd to w1 w2 r,
        send_first-raw env config payload client remote server' w2 w3 refl fresh.1
            (rw fresh.0 sent),
      )

  -- Where the name in the header of a datagram has no address, `udpServerOnRead` of the server program
  -- closes the socket of the remote twice, and frees the remote twice: once in `udpRemoteNew`, and once in
  -- `udpConnectionFree`, which also counts it down, although it was never counted. (A datagram with a
  -- header arrives, and the socket `fd` for it can be made.)
  pub udp_server_on_read-unresolved :
      (server : UdpServer) (host : List ℕ) (port : ℕ) (addr payload : List ℕ) (from : Info) (fd : ℕ)
      (w w1 w2 : World)
      → Arrives server host port addr payload from w w1
      → udp_socket os none 0 config.ipv6_first w1 ≡ (some fd, w2)
      → udp_get_sock_addr_ex config.ipv6_first (getaddrinfo none (some host) port w2) ≡ net_err
      → udp_server_on_read env config server w ≡ (
        undefined,
        record (with_header server addr) { remote_count = decrement server.remote_count },
        sys.close fd (sys.close fd w2),
      )
  unfolding after_remote free_dangling udp_connection_free remote_free datagram_close udp_close
  udp_server_on_read-unresolved server host port addr payload from fd w w1 w2 a made_ no_address =
      ground (
        arith,
        on_read-Arrives server host port addr payload from w w1 a,
        udp_remote_new-dangling env config (client_from from) (with_header server addr) false host
            port fd w1 w2 made_ no_address,
        (remote_of-fresh env config false fd).0,
      )
