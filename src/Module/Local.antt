-- ===== src/Module/Local.antt =====
-- src/app/local.c: the callbacks of the local program, whose clients speak SOCKS5. A request is sent
-- to the server of the configuration, encrypted, or straight to its destination (bypass).
pub mod Request
pub mod Counters
mod Tests
use xsocks.Base.{
  ℕ, Bool, true, false, not, List, [], ◌∷◌, ◌++◌, Option, none, some, length, ◌==◌, if◌then◌else◌,
}
use xsocks.Base.Int.{ℤ, pos, is_pos, neg_part}
use xsocks.Net.{Os, Input, Output}
use xsocks.Socks5.{
  Addr, Parsed, out_of_bounds, err, ok, addr_parse, c_string, atyp_domain, hostname_max_len,
}
use xsocks.Tcp.{TcpConn, Status, tcp_ok, tcp_err}
use xsocks.TcpSocks5
use xsocks.TcpSocks5.{Socks5}
use xsocks.TcpShadowsocks
use xsocks.Conn.{
  Env, ConnType, raw_type, shadowsocks_type, socks5_type, Kind, raw, socks5, shadowsocks, Conn,
  conn_read, conn_write,
}
use xsocks.Pipe.{splice, tcp_pipe}
use xsocks.Module.{
  Client, Counts, increment, is_closed, edit, tcp_client_new, tcp_remote_new, Outcome, alive, freed,
  undefined, Result, free, settle, prepare,
}

-- `get_acl_mode`
pub data AclMode : Type 0 where
  black_list white_list : AclMode

-- What the program calls of the acl of shadowsocks-libev, and the resolver.
pub record Acl : Type 0 where
  pub match_host : List ℕ → ℤ
  pub mode : AclMode
  pub resolve : List ℕ → Option (List ℕ)

-- The configuration, where `acl` may be missing, and `netTcpNonBlockConnect`. Allocations succeed.
pub record Outside (env : Env) : Type 0 where
  pub acl : Option Acl
  pub remote_addr : List ℕ
  pub remote_port : ℕ
  pub dial : List ℕ → ℕ → env.os.World → Option ℕ × env.os.World
  pub timeout : ℤ

abbrev pub is_negative : ℤ → Bool
is_negative z = not (neg_part z == 0)

-- `isBypass`
pub is_bypass : Acl → List ℕ → Bool
is_bypass acl ip = elim acl.mode [
  | black_list ↦ is_pos (acl.match_host ip)
  | white_list ↦ not (is_negative (acl.match_host ip))
]

-- the address to match where the host itself matched nothing
resolved : Acl → ℕ → List ℕ → Option (List ℕ)
resolved acl atyp host = if not (atyp == atyp_domain) then some host else acl.resolve host

-- The choice of `bypass` in `tcpClientOnRead`.
unfoldable pub bypass : Option Acl → ℕ → List ℕ → Bool
unfolding is_bypass resolved
bypass none atyp host = false
bypass (some acl) atyp host =
    let host_match = if atyp == atyp_domain then acl.match_host host else pos 0 in
    if is_pos host_match
    then true
    else if is_negative host_match
    then false
    else elim (resolved acl atyp host) [ none ↦ false | some ip ↦ is_bypass acl ip ]

module _ (env : Env) (out : Outside env) where
  open env use {os, crypto, inet}
  open os use {World}

  -- `tcpServerOnAccept`
  pub on_accept : Option ℕ → Counts → Outcome crypto × Counts
  unfolding tcp_client_new
  on_accept cfd n = elim (tcp_client_new env true socks5_type cfd true out.timeout) [
    | none ↦ (freed, n)
    | some client ↦ (alive client, record n { client_count = increment n.client_count })
  ]

  -- `tcpShadowsocksConnInit` of the new remote
  pub init_remote : List ℕ → ℕ → Kind crypto → Kind crypto
  init_remote host port raw = raw
  init_remote host port (socks5 s) = socks5 s
  init_remote host port (shadowsocks s) =
      shadowsocks (TcpShadowsocks.conn_init crypto inet s host port)

  set_kind : (Kind crypto → Kind crypto) → Option (Conn crypto) → Option (Conn crypto)
  set_kind f none = none
  set_kind f (some c) = some (record c { kind = f c.kind })

  with_remote : Counts → Counts
  with_remote n = record n { remote_count = increment n.remote_count }

  -- the remote for the destination `host` and `port`
  pub open_remote : Bool → List ℕ → ℕ → Client crypto → Counts → World → Result env
  unfolding tcp_remote_new free init_remote set_kind with_remote
  open_remote true host port client n w =
      let (fd, w') = out.dial host port w in
      elim (tcp_remote_new env true raw_type fd true out.timeout client) [
        | none ↦ free env client n w'
        | some client' ↦ (alive client', with_remote n, w')
      ]
  open_remote false host port client n w =
      let (fd, w') = out.dial out.remote_addr out.remote_port w in
      elim (tcp_remote_new env true shadowsocks_type fd true out.timeout client) [
        | none ↦ free env client n w'
        | some client' ↦ (
          alive (record client' { remote = set_kind (init_remote host port) client'.remote }),
          with_remote n,
          w',
        )
      ]

  -- The result of `socks5AddrParse` is not looked at.
  pub on_address : Client crypto → Counts → World → Parsed → Result env
  unfolding open_remote bypass
  on_address client n w out_of_bounds = (undefined, n, w)
  on_address client n w err = (undefined, n, w)
  on_address client n w (ok len a) =
      let host = c_string a.host in open_remote (bypass out.acl a.atyp host) host a.port client n w

  -- `TCP_WRITE` of the `nread` bytes of the handshake, for the reply that it triggers
  on_handshake : Input → Client crypto → Counts → World → Result env
  unfolding settle
  on_handshake Input.fail client n w = settle env client.conn client n w
  on_handshake (Input.bytes []) client n w = (alive client, n, w)
  on_handshake (Input.bytes (b ∷ bs)) client n w =
      let mem = splice 0 (b ∷ bs) client.conn.base.rbuf in
      let (r, conn, w') = conn_write env client.conn mem (pos (length (b ∷ bs))) w in
      settle env conn (record client { conn = conn }) n w'

  handshake : Client crypto → Counts → World → Result env
  unfolding on_handshake
  handshake client n w =
      let (r, conn, w') = conn_read env client.conn (length client.conn.base.rbuf) w in
      on_handshake r (record client { conn = conn }) n w'

  -- `tcpClientOnRead` behind the handshake
  on_stream : Socks5 → Option (Conn crypto) → Client crypto → Counts → World → Result env
  unfolding on_address settle free
  on_stream s none client n w = elim s.addrbuf_dest [
    | none ↦ (undefined, n, w)
    | some addr ↦ on_address client n w (addr_parse inet addr hostname_max_len)
  ]
  on_stream s (some remote) client n w =
      let (r, src, dst, w') = tcp_pipe env client.conn remote w in
      let client' : Client crypto = record { conn = src; remote = some dst } in
      if is_closed src.base.fired then free env client' n w' else settle env dst client' n w'

  on_state : TcpSocks5.State → Socks5 → Client crypto → Counts → World → Result env
  unfolding handshake on_stream
  on_state TcpSocks5.init s client n w = handshake client n w
  on_state TcpSocks5.handshake s client n w = handshake client n w
  on_state TcpSocks5.stream s client n w = on_stream s client.remote client n w

  -- `tcpClientOnRead` of a client whose connection is a SOCKS5 one, with the state `s`
  pub on_read : Socks5 → Client crypto → Counts → World → Result env
  unfolding on_state
  on_read s client n w = on_state s.state s client n w

  -- `tcpRemoteOnConnect`
  pub on_connect : Client crypto → Conn crypto → Status → Counts → World → Result env
  unfolding prepare
  on_connect client remote tcp_err n w = (alive (record client { remote = some remote }), n, w)
  on_connect client remote tcp_ok n w = (alive (prepare env client remote), n, w)
