-- ===== src/Module/Counters.antt =====
-- The two counters of a `tcpServer` and its clients (src/app/module/module_tcp.c): `++` and `--` stand in
-- different functions, those of the programs and of module_tcp.c.
use xsocks.Base.{true, ℕ, suc, ◌+◌, ◌≡◌, List, [], ◌∷◌, none, some, length, arith, Option}
use xsocks.Base.Int.{ℤ, pos}
use xsocks.Conn.{Env, Conn, raw_type, shadowsocks_type}
use xsocks.Module.{
  Client, Counts, count_free, tcp_remote_new, tcp_connection_free, Outcome, alive, freed, undefined,
  Result, settle, free,
}
use xsocks.Module.Remote.{tcp_remote_new-Remote, tcp_remote_new_secure}

module _ (env : Env) where
  open env use {os, crypto}
  open os use {World}

  -- 1 for a client with a remote
  abbrev pub remotes_of : Client crypto → ℕ
  remotes_of client = elim client.remote [ none ↦ 0 | some c ↦ 1 ]

  abbrev pub remotes : List (Client crypto) → ℕ
  remotes [] = 0
  remotes (c ∷ cs) = remotes_of c + remotes cs

  -- the clients that a callback leaves
  abbrev pub left : Outcome crypto → List (Client crypto)
  left (alive c) = c ∷ []
  left freed = []
  left undefined = []

  -- The counters say `a` clients and `b` remotes.
  abbrev pub Counted : Counts → ℕ → ℕ → Type 0
  Counted n a b = (n.client_count ≡ pos a) × (n.remote_count ≡ pos b)

  -- a callback of `client` that keeps the counters right, next to `a` other clients with `b` remotes
  abbrev pub Keeps : Client crypto → Counts → Result env → Type 0
  Keeps client n r =
      (a b : ℕ)
      → Counted n (suc a) (remotes_of client + b)
      → ((r.0 ≡ undefined) → ⊥)
      → Counted r.1 (length (left r.0) + a) (remotes (left r.0) + b)

  pub free-Keeps :
      (client : Client crypto) (n : Counts) (w : World) → Keeps client n (free env client n w)
  unfolding free tcp_connection_free count_free
  free-Keeps client n w a b h def = ground arith

  pub settle-Keeps :
      (conn : Conn crypto) (client : Client crypto) (n : Counts) (w : World)
      → Keeps client n (settle env conn client n w)
  unfolding settle
  settle-Keeps conn client n w a b h def = ground (arith, free-Keeps client n w a b h)

  -- `tcpRemoteNew` gives the client a remote.
  pub remote_set-raw :
      (client : Client crypto) (timeout : ℤ) (fd : Option ℕ) (client' : Client crypto)
      → tcp_remote_new env true raw_type fd true timeout client ≡ some client'
      → remotes_of client' ≡ 1
  unfolding tcp_remote_new
  remote_set-raw client timeout none client' e = cc
  remote_set-raw client timeout (some fd) client' e =
      let (made, new, r) = tcp_remote_new-Remote env fd timeout client in
      ground (arith, new, r.set, e)

  pub remote_set-secure :
      (client : Client crypto) (timeout : ℤ) (fd : Option ℕ) (client' : Client crypto)
      → tcp_remote_new env true shadowsocks_type fd true timeout client ≡ some client'
      → remotes_of client' ≡ 1
  unfolding tcp_remote_new
  remote_set-secure client timeout none client' e = cc
  remote_set-secure client timeout (some fd) client' e =
      let (made, new, r) = tcp_remote_new_secure env fd timeout client in
      ground (arith, new, r.set, e)

  -- `tcpConnectionFree` takes one client, and its remote, off the counters.
  pub connection_free-Counted :
      (client : Client crypto) (n : Counts) (w : World) (a b : ℕ)
      → Counted n (suc a) (remotes_of client + b)
      → Counted (tcp_connection_free env client n w).0 (0 + a) (0 + b)
  unfolding tcp_connection_free count_free
  connection_free-Counted client n w a b h = ground arith
