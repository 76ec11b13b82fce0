-- ===== src/Module/Udp/Remote.antt =====
-- What `udpRemoteNew` of src/app/module/module_udp.c makes where nothing fails, and the first datagram
-- to it.
use xsocks.Base.{ℕ, ◌≡◌, Bool, List, [], ◌++◌, none, some, length, arith}
use xsocks.Net.{SysWrite}
use xsocks.Net.Resolve.{Info, net_err, net_ok, udp_get_sock_addr_ex}
use xsocks.Udp.{udp_socket, udp_create, udp_conn_new, udp_init, udp_set_timeout, udp_add_time}
use xsocks.Udp.Shadowsocks.{UdpEnv, Datagrams, raw, shadowsocks, udp_conn_of, datagram_close}
use xsocks.Udp.Shadowsocks.RoundTrip.{datagram_write-raw, datagram_write-shadowsocks}
use xsocks.Module.{increment, is_closed}
use xsocks.Module.Udp.{
  UdpServer, UdpClient, UdpConfig, alive, made, dangling, install, udp_remote_new, with_address,
  send_first, settle_remote,
}

module _ (env : UdpEnv) (config : UdpConfig) where
  open env use {os, inet, encrypt_all}
  open os use {sys, getaddrinfo, sendto}
  open sys use {World}

  -- the remote socket on the descriptor `fd`
  abbrev pub remote_of : Bool → ℕ → Datagrams
  remote_of secure fd = install (udp_conn_of secure (udp_conn_new fd config.timeout))

  -- It is on `fd`, and no callback of it was called.
  pub remote_of-fresh :
      (secure : Bool) (fd : ℕ)
      → ((remote_of secure fd).base.fd ≡ fd) × ((remote_of secure fd).base.fired ≡ [])
  unfolding udp_conn_of udp_conn_new udp_init udp_set_timeout udp_add_time
  remote_of-fresh secure fd = ground arith

  -- The socket is made, and the name has an address.
  pub record Resolves (host : List ℕ) (port : ℕ) (fd : ℕ) (to : Info) (w w' : World) : Type 0 where
    pub socket : udp_socket os none 0 config.ipv6_first w ≡ (some fd, w')
    pub address :
        udp_get_sock_addr_ex config.ipv6_first (getaddrinfo none (some host) port w')
        ≡ net_ok (some to)

  pub udp_remote_new-made :
      (client : UdpClient) (server : UdpServer) (secure : Bool) (host : List ℕ) (port fd : ℕ)
      (to : Info) (w w' : World)
      → Resolves host port fd to w w'
      → udp_remote_new env config client server secure host port w ≡ (
        made
            (record client { remote = some (remote_of secure fd); sa_remote = some to })
            (remote_of secure fd),
        record server { remote_count = increment server.remote_count },
        w',
      )
  unfolding udp_remote_new with_address udp_create
  udp_remote_new-made client server secure host port fd to w w' h =
      ground (arith, h.socket, h.address)

  -- Where the name has no address, the remote is closed, and the client still points to it.
  pub udp_remote_new-dangling :
      (client : UdpClient) (server : UdpServer) (secure : Bool) (host : List ℕ) (port fd : ℕ)
      (w w' : World)
      → udp_socket os none 0 config.ipv6_first w ≡ (some fd, w')
      → udp_get_sock_addr_ex config.ipv6_first (getaddrinfo none (some host) port w') ≡ net_err
      → udp_remote_new env config client server secure host port w
        ≡ (dangling (remote_of secure fd), server, datagram_close env (remote_of secure fd) w')
  unfolding udp_remote_new with_address udp_create
  udp_remote_new-dangling client server secure host port fd w w' e f = ground (arith, e, f)

  settle-open :
      (remote : Datagrams) (client : UdpClient) (server : UdpServer) (w : World)
      → remote.base.fired ≡ []
      → settle_remote env config remote client server w
        ≡ (alive (record client { remote = some remote }), server, w)
  unfolding settle_remote is_closed
  settle-open remote client server w e = ground (arith, e)

  -- The kernel takes the whole datagram.
  pub send_first-raw :
      (buf : List ℕ) (client : UdpClient) (remote : Datagrams) (server : UdpServer) (w w' : World)
      → remote.kind ≡ raw
      → remote.base.fired ≡ []
      → sendto remote.base.fd buf client.sa_remote w ≡ (SysWrite.wrote (length buf), w')
      → send_first env config buf client remote server w
        ≡ (alive (record client { remote = some remote }), server, w')
  unfolding send_first
  send_first-raw buf client remote server w w' k quiet sent = ground (
    arith,
    datagram_write-raw env remote buf client.sa_remote w w' k sent,
    settle-open remote client server w' quiet,
  )

  pub send_first-shadowsocks :
      (buf text addr : List ℕ) (client : UdpClient) (remote : Datagrams) (server : UdpServer)
      (w w' w'' : World)
      → remote.kind ≡ shadowsocks addr
      → remote.base.fired ≡ []
      → encrypt_all (addr ++ buf) w ≡ (some text, w')
      → sendto remote.base.fd text client.sa_remote w' ≡ (SysWrite.wrote (length text), w'')
      → send_first env config buf client remote server w
        ≡ (alive (record client { remote = some remote }), server, w'')
  unfolding send_first
  send_first-shadowsocks buf text addr client remote server w w' w'' k quiet enc sent = ground (
    arith,
    datagram_write-shadowsocks env remote buf text addr client.sa_remote w w' w'' k enc sent,
    settle-open remote client server w'' quiet,
  )
