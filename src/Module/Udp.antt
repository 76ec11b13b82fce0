-- ===== src/Module/Udp.antt =====
-- src/app/module/module_udp.c: the clients of a UDP server. Each datagram makes a client, with a remote
-- socket of its own that waits for the answer; onClose of the remote frees both.
pub mod Server
pub mod Tunnel
pub mod Counters
pub mod Run
pub mod Remote
pub mod Answer
pub mod Late
pub mod EndToEnd
mod Tests
use xsocks.Base.{ℕ, Bool, true, false, List, Option, none, some, if◌then◌else◌}
use xsocks.Base.Int.{ℤ, pos}
use xsocks.Net.{Input}
use xsocks.Net.Resolve.{Info, Resolved, net_err, net_ok, udp_get_sock_addr_ex}
use xsocks.Tcp.Io.{net_iobuf_len}
use xsocks.Udp.{UdpConn, UdpHandlers, udp_create, udp_conn_timeout_handler}
use xsocks.Udp.Shadowsocks.{
  UdpEnv, Datagrams, udp_conn_of, datagram_read, datagram_write, datagram_close,
}
use xsocks.Module.{increment, decrement, is_closed}

-- `udpServer`
pub record UdpServer : Type 0 where
  pub conn : Datagrams
  pub remote_count : ℤ

-- `udpClient`, with the `udpRemote` behind it. The addresses are `none` until something is stored.
pub record UdpClient : Type 0 where
  pub remote : Option Datagrams
  pub sa_client : Option Info
  pub sa_remote : Option Info

-- The configuration, and the port that the remote sockets ask for is 0.
pub record UdpConfig : Type 0 where
  pub ipv6_first : Bool
  pub timeout : ℤ

-- What a callback leaves: the client, nothing (it was freed), or undefined behaviour (memory is freed
-- twice, or `host` and `port` are used uninitialised).
pub data UdpOutcome : Type 0 where
  alive : UdpClient → UdpOutcome
  freed : UdpOutcome
  undefined : UdpOutcome

-- What `udpRemoteNew` does: it makes no socket; or it finds no address, and frees the remote that the
-- client still points to; or the client gets the remote, with its address.
pub data RemoteNew : Type 0 where
  no_socket : RemoteNew
  dangling : Datagrams → RemoteNew
  made : UdpClient → Datagrams → RemoteNew

abbrev remote_handlers : UdpHandlers
remote_handlers = record { on_read = true; on_timeout = true; on_close = true; on_error = true }

abbrev install : Datagrams → Datagrams
install c = record c { base = record (c.base) { handlers = remote_handlers } }

-- `udpClientNew` where its allocation succeeds
pub udp_client_new : UdpClient
udp_client_new = record { remote = none; sa_client = none; sa_remote = none }

module _ (env : UdpEnv) where
  open env use {os}
  open os use {sys}
  open sys use {World}

  -- `udpServerFree`
  unfoldable pub udp_server_free : Option UdpServer → World → World
  unfolding datagram_close
  udp_server_free none w = w
  udp_server_free (some server) w = datagram_close env server.conn w

module _ (env : UdpEnv) (config : UdpConfig) where
  open env use {os}
  open os use {sys, getaddrinfo}
  open sys use {World}

  -- `udpServerNew` where its allocations succeed: no callback but onRead is installed.
  unfoldable pub udp_server_new : Option (List ℕ) → ℕ → Bool → World → Option UdpServer × World
  unfolding udp_create udp_conn_of
  udp_server_new host port secure w =
      let (created, w') = udp_create os host port config.ipv6_first config.timeout w in
      elim created [
        | none ↦ (none, w')
        | some c ↦
            let conn = udp_conn_of secure c in
            let handlers = record (conn.base.handlers) { on_read = true } in
            let base = record (conn.base) { handlers = handlers } in
            (some (record { conn = record conn { base = base }; remote_count = pos 0 }), w')
      ]

  abbrev Made : Type 0
  Made = RemoteNew × UdpServer × World

  -- the address of the remote
  with_address : Resolved → UdpClient → Datagrams → UdpServer → World → Made
  with_address net_err client remote server w =
      (dangling remote, server, datagram_close env remote w)
  with_address (net_ok found) client remote server w = (
    made
        (record client {
          remote = some remote;
          sa_remote = elim found [ none ↦ client.sa_remote | some a ↦ some a ];
        })
        remote,
    record server { remote_count = increment server.remote_count },
    w,
  )

  -- `udpRemoteNew` of a shadowsocks or a raw socket, for `host` and `port`
  unfoldable pub udp_remote_new :
      UdpClient → UdpServer → Bool → List ℕ → ℕ → World → RemoteNew × UdpServer × World
  unfolding with_address udp_create udp_conn_of
  udp_remote_new client server secure host port w =
      let (conn, w') = udp_create os none 0 config.ipv6_first config.timeout w in
      elim conn [
        | none ↦ (no_socket, server, w')
        | some c ↦
            with_address
              (udp_get_sock_addr_ex config.ipv6_first (getaddrinfo none (some host) port w')) client
              (install (udp_conn_of secure c)) server w'
      ]

  -- `udpRemoteFree`
  remote_free : Option Datagrams → World → World
  unfolding datagram_close
  remote_free none w = w
  remote_free (some c) w = datagram_close env c w

  -- `udpConnectionFree`
  unfoldable pub udp_connection_free : UdpClient → UdpServer → World → UdpServer × World
  unfolding remote_free
  udp_connection_free client server w = (
    record server {
      remote_count = elim client.remote [
        | none ↦ server.remote_count
        | some c ↦ decrement server.remote_count
      ];
    },
    remote_free client.remote w,
  )

  abbrev pub UdpResult : Type 0
  UdpResult = UdpOutcome × UdpServer × World

  unfoldable pub free_client : UdpClient → UdpServer → World → UdpResult
  unfolding udp_connection_free
  free_client client server w =
      let (server', w') = udp_connection_free client server w in (freed, server', w')

  -- `udpConnectionFree` of a client whose remote `udpRemoteNew` has freed: the counter goes down and the
  -- remote is closed and freed a second time, which is undefined. (The state is that of the calls which
  -- the code makes, if the freed memory still holds what it held.)
  unfoldable pub free_dangling : UdpClient → Datagrams → UdpServer → World → UdpResult
  unfolding udp_connection_free
  free_dangling client remote server w =
      let (server', w') = udp_connection_free (record client { remote = some remote }) server w in
      (undefined, server', w')

  -- `udpRemoteOnClose` frees the client, where it was called. (`udpRemoteOnError` and
  -- `udpRemoteOnTimeout` only log.)
  unfoldable pub settle_remote : Datagrams → UdpClient → UdpServer → World → UdpResult
  unfolding free_client is_closed
  settle_remote remote client server w =
      let client' = record client { remote = some remote } in
      if is_closed remote.base.fired
      then free_client client' server w
      else (alive client', server, w)

  -- UDP_WRITE of the first datagram to the remote
  unfoldable pub send_first : List ℕ → UdpClient → Datagrams → UdpServer → World → UdpResult
  unfolding settle_remote datagram_write
  send_first buf client remote server w =
      let (r, remote', w') = datagram_write env remote buf client.sa_remote w in
      settle_remote remote' client server w'

  -- the answer goes to the client, which is then done
  answer : Input → Datagrams → UdpClient → UdpServer → World → UdpResult
  unfolding settle_remote free_client datagram_write
  answer Input.fail remote client server w = settle_remote remote client server w
  answer (Input.bytes buf) remote client server w =
      let (r, conn, w') = datagram_write env server.conn buf client.sa_client w in
      free_client (record client { remote = some remote }) (record server { conn = conn }) w'

  -- `udpRemoteOnRead`
  unfoldable pub udp_remote_on_read : UdpClient → Datagrams → UdpServer → World → UdpResult
  unfolding answer datagram_read
  udp_remote_on_read client remote server w =
      let (r, from, remote', w') = datagram_read env remote net_iobuf_len w in
      answer r remote' client server w'

  -- the timer of the remote
  unfoldable pub udp_remote_timed_out : UdpClient → Datagrams → UdpServer → World → UdpResult
  unfolding settle_remote udp_conn_timeout_handler
  udp_remote_timed_out client remote server w =
      settle_remote (record remote { base = udp_conn_timeout_handler remote.base }) client server w
