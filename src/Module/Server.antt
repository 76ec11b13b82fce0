-- ===== src/Module/Server.antt =====
-- src/app/server.c: the callbacks of the server program, whose clients speak shadowsocks.
pub mod Connected
pub mod Counters
mod Tests
pub mod FirstPacket
use xsocks.Base.{
  ℕ, ◌+◌, ◌-◌, Bool, true, false, List, [], ◌∷◌, ◌++◌, Option, none, some, length, take, drop, ltb,
  ◌==◌, if◌then◌else◌,
}
use xsocks.Base.Int.{ℤ, pos}
use xsocks.Net.{Os, Input, Output}
use xsocks.Socks5.{
  Addr, Parsed, out_of_bounds, err, ok, addr_parse, c_string, atyp_domain, hostname_max_len,
}
use xsocks.Tcp.{TcpConn, Status, tcp_ok, tcp_err, add_read}
use xsocks.TcpShadowsocks
use xsocks.TcpShadowsocks.{Crypto, Shadowsocks}
use xsocks.Conn.{
  Env, ConnType, raw_type, shadowsocks_type, Kind, raw, socks5, shadowsocks, Conn, conn_read,
  conn_write,
}
use xsocks.Pipe.{splice, tcp_pipe}
use xsocks.Module.{
  Client, Counts, increment, is_closed, edit, Outcome, alive, freed, undefined, Result, free,
  settle, prepare, tcp_client_new, tcp_remote_new, tcp_connection_free,
}

-- What the program takes from outside: `blocked atyp host` says whether there is an acl, the host
-- resolves and `outbound_block_match_host` refuses it; `dial` is `netTcpNonBlockConnect`. Allocations
-- succeed.
pub record Outside (env : Env) : Type 0 where
  pub blocked : ℕ → List ℕ → Bool
  pub dial : List ℕ → ℕ → env.os.World → Option ℕ × env.os.World
  pub timeout : ℤ

module _ (env : Env) (out : Outside env) where
  open env use {os, crypto, inet}
  open os use {World}

  -- `conn_client->addrbuf_dest`
  abbrev pub address_of : Kind crypto → List ℕ
  address_of raw = []
  address_of (socks5 s) = []
  address_of (shadowsocks s) = s.addrbuf_dest

  -- `tcpServerOnAccept`
  pub on_accept : Option ℕ → Counts → Outcome crypto × Counts
  unfolding tcp_client_new
  on_accept cfd n = elim (tcp_client_new env true shadowsocks_type cfd true out.timeout) [
    | none ↦ (freed, n)
    | some client ↦ (alive client, record n { client_count = increment n.client_count })
  ]

  -- the bytes behind the address go to the start of the read buffer
  pub rewind : ℕ → List ℕ → TcpConn → TcpConn
  rewind rbuf_off bs c =
      let rbuf_len = length bs - rbuf_off in
      let held = splice 0 bs c.rbuf in
      if ltb rbuf_off (length bs)
      then record c {
        rbuf = splice 0 (take rbuf_len (drop rbuf_off held)) held;
        rbuf_off = c.rbuf_off + rbuf_len;
      }
      else record c { rbuf = held }

  -- `on_read` behind the parsing of the address: `bs` was read
  on_address : List ℕ → Client crypto → Counts → World → Parsed → Result env
  unfolding tcp_remote_new free rewind
  on_address bs client n w out_of_bounds = (undefined, n, w)
  on_address bs client n w err = (undefined, n, w)
  on_address bs client n w (ok len a) =
      let host = c_string a.host in
      if out.blocked a.atyp host
      then free env client n w
      else let (fd, w') = out.dial host a.port w in
        elim (tcp_remote_new env true raw_type fd true out.timeout client) [
          | none ↦ free env client n w'
          | some client' ↦ (
            alive (record client' {
              conn = edit env (rewind (length (address_of client.conn.kind)) bs) client'.conn;
            }),
            record n { remote_count = increment n.remote_count },
            w',
          )
        ]

  on_bytes : Input → Client crypto → Counts → World → Result env
  unfolding settle on_address
  on_bytes Input.fail client n w = settle env client.conn client n w
  on_bytes (Input.bytes []) client n w = (alive client, n, w)
  on_bytes (Input.bytes (b ∷ bs)) client n w =
      on_address (b ∷ bs) client n w
        (addr_parse inet (address_of client.conn.kind) hostname_max_len)

  -- `tcpClientOnRead` of a client without a remote
  pub on_first_read : Client crypto → Counts → World → Result env
  unfolding on_bytes
  on_first_read client n w =
      let (r, conn, w') = conn_read env client.conn (length client.conn.base.rbuf) w in
      on_bytes r (record client { conn = conn }) n w'

  -- `tcpClientOnRead`
  pub on_read : Client crypto → Counts → World → Result env
  unfolding on_first_read
  on_read client n w = elim client.remote [
    | none ↦ on_first_read client n w
    | some remote ↦
        let (r, src, dst, w') = tcp_pipe env client.conn remote w in
        let client' : Client crypto = record { conn = src; remote = some dst } in
        if is_closed src.base.fired then free env client' n w' else settle env dst client' n w'
  ]

  on_left_written : Output → Client crypto → Conn crypto → Counts → World → Result env
  unfolding settle prepare
  on_left_written Output.fail client remote n w =
      settle env remote (record client { remote = some remote }) n w
  on_left_written Output.crash client remote n w = (undefined, n, w)
  on_left_written (Output.count k) client remote n w =
      if ltb k client.conn.base.rbuf_off
      then free env (record client { remote = some remote }) n w
      else let rewound = record client {
        conn = edit env (λ b. record b { rbuf_off = 0 }) client.conn;
      } in
        (alive (prepare env rewound remote), n, w)

  -- `tcpRemoteOnConnect`: what is left of the first packet is written.
  pub on_connect : Client crypto → Conn crypto → Status → Counts → World → Result env
  unfolding on_left_written
  on_connect client remote tcp_err n w = (alive (record client { remote = some remote }), n, w)
  on_connect client remote tcp_ok n w =
      let b = client.conn.base in
      if b.rbuf_off == 0
      then (alive (prepare env client remote), n, w)
      else let (r, remote', w') = conn_write env remote b.rbuf (pos b.rbuf_off) w in
        on_left_written r client remote' n w'
