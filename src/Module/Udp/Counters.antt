-- ===== src/Module/Udp/Counters.antt =====
-- `remote_count` of a `udpServer` (src/app/module/module_udp.c): what keeps it right.
use xsocks.Base.{ℕ, ◌+◌, ◌≡◌, Bool, List, [], ◌∷◌, none, some, arith}
use xsocks.Base.Int.{pos}
use xsocks.Net.{Input}
use xsocks.Tcp.Io.{net_iobuf_len}
use xsocks.Udp.{udp_conn_timeout_handler}
use xsocks.Udp.Shadowsocks.{UdpEnv, Datagrams, datagram_read, datagram_write}
use xsocks.Module.Udp.{
  UdpServer, UdpClient, UdpConfig, UdpOutcome, alive, freed, undefined, RemoteNew, no_socket,
  dangling, made, with_address, udp_remote_new, udp_connection_free, UdpResult, free_client,
  settle_remote, send_first, answer, udp_remote_on_read, udp_remote_timed_out,
}

-- 1 for a client with a remote
abbrev pub remotes_of : UdpClient → ℕ
remotes_of client = elim client.remote [ none ↦ 0 | some c ↦ 1 ]

abbrev pub remotes : List UdpClient → ℕ
remotes [] = 0
remotes (c ∷ cs) = remotes_of c + remotes cs

-- the clients that a callback leaves
abbrev pub left : UdpOutcome → List UdpClient
left (alive c) = c ∷ []
left freed = []
left undefined = []

module _ (env : UdpEnv) (config : UdpConfig) where
  open env use {os, inet}
  open os use {sys}
  open sys use {World}

  -- A callback with `k` remotes of its own keeps the counter right, next to clients with `b` remotes.
  abbrev pub Keeps : ℕ → UdpServer → UdpResult env config → Type 0
  Keeps k server r =
      (b : ℕ)
      → server.remote_count ≡ pos (k + b)
      → ((r.0 ≡ undefined) → ⊥)
      → r.1.remote_count ≡ pos (remotes (left r.0) + b)

  pub free-Keeps :
      (client : UdpClient) (server : UdpServer) (w : World)
      → Keeps (remotes_of client) server (free_client env config client server w)
  unfolding free_client udp_connection_free
  free-Keeps client server w b h def = ground (arith, h)

  settle-Keeps :
      (remote : Datagrams) (client : UdpClient) (server : UdpServer) (w : World)
      → Keeps 1 server (settle_remote env config remote client server w)
  unfolding settle_remote
  settle-Keeps remote client server w b h def =
      let client' : UdpClient = record client { remote = some remote } in
      ground (arith, h, free-Keeps client' server w b)

  pub send_first-Keeps :
      (buf : List ℕ) (client : UdpClient) (remote : Datagrams) (server : UdpServer) (w : World)
      → Keeps 1 server (send_first env config buf client remote server w)
  unfolding send_first
  send_first-Keeps buf client remote server w =
      let r = datagram_write env remote buf client.sa_remote w in settle-Keeps r.1 client server r.2

  -- the remotes that `udpRemoteNew` has added to the counter
  abbrev pub added_by : RemoteNew → ℕ
  added_by no_socket = 0
  added_by (dangling remote) = 0
  added_by (made client remote) = 1

  pub remote_new-Counted :
      (client : UdpClient) (server : UdpServer) (secure : Bool) (host : List ℕ) (port : ℕ)
      (w : World) (b : ℕ)
      → server.remote_count ≡ pos b
      → let r = udp_remote_new env config client server secure host port w in
        r.1.remote_count ≡ pos (added_by r.0 + b)
  unfolding udp_remote_new with_address
  remote_new-Counted client server secure host port w b h = ground (arith, h)

  answer-Keeps :
      (r : Input) (remote : Datagrams) (client : UdpClient) (server : UdpServer) (w : World)
      → Keeps 1 server (answer env config r remote client server w)
  unfolding answer
  answer-Keeps Input.fail remote client server w = settle-Keeps remote client server w
  answer-Keeps (Input.bytes buf) remote client server w =
      let r = datagram_write env server.conn buf client.sa_client w in
      free-Keeps (record client { remote = some remote }) (record server { conn = r.1 }) r.2

  -- `udpRemoteOnRead` and the timer of the remote take away the remote that they free.
  pub remote_on_read-Keeps :
      (client : UdpClient) (remote : Datagrams) (server : UdpServer) (w : World)
      → Keeps 1 server (udp_remote_on_read env config client remote server w)
  unfolding udp_remote_on_read
  remote_on_read-Keeps client remote server w =
      let r = datagram_read env remote net_iobuf_len w in answer-Keeps r.0 r.2 client server r.3

  pub timed_out-Keeps :
      (client : UdpClient) (remote : Datagrams) (server : UdpServer) (w : World)
      → Keeps 1 server (udp_remote_timed_out env config client remote server w)
  unfolding udp_remote_timed_out
  timed_out-Keeps client remote server w =
      settle-Keeps (record remote { base = udp_conn_timeout_handler remote.base }) client server w
