-- ===== src/Module/Redir.antt =====
-- src/app/redir.c: the callbacks of the redir program. Its clients are connections that the kernel has
-- redirected to it; their original destination takes the place of a request.
pub mod Request
pub mod Counters
mod Tests
use xsocks.Base.{ℕ, Bool, true, false, not, List, Option, none, some, if◌then◌else◌}
use xsocks.Base.Int.{ℤ, is_pos}
use xsocks.Net.Dest.{SockAddr, net_tcp_get_dest_sock_addr, net_ip_present_by_sock_addr}
use xsocks.Socks5.{hostname_max_len}
use xsocks.Tcp.{Status, tcp_ok, tcp_err}
use xsocks.Conn.{Env, raw_type, shadowsocks_type, Conn}
use xsocks.Pipe.{tcp_pipe}
use xsocks.Module.{
  Client, Counts, increment, is_closed, tcp_client_new, tcp_remote_new, alive, freed, undefined,
  Result, free, settle, prepare,
}
use xsocks.Module.Local.{Acl, black_list, white_list, is_negative}
use xsocks.Module.Local
use xsocks.Module.Local.{open_remote}

-- The configuration, the acl (where none is loaded it is an empty black list), getsockopt of
-- SO_ORIGINAL_DST and `netTcpNonBlockConnect`. Allocations succeed.
pub record Outside (env : Env) : Type 0 where
  pub acl : Acl
  pub ipv6_first : Bool
  pub remote_addr : List ℕ
  pub remote_port : ℕ
  pub original : ℕ → env.os.World → Bool → Option SockAddr
  pub dial : List ℕ → ℕ → env.os.World → Option ℕ × env.os.World
  pub timeout : ℤ

-- `isBypass`
unfoldable pub is_direct : Acl → List ℕ → Bool
is_direct acl ip =
    let ip_match = acl.match_host ip in
    elim acl.mode [
      | black_list ↦ if is_pos ip_match then true else false
      | white_list ↦ if is_negative ip_match then false else true
    ]

module _ (env : Env) (out : Outside env) where
  open env use {os, crypto, inet}
  open os use {World}

  -- what the two programs have in common
  abbrev pub as_local : Local.Outside env
  as_local = record {
    acl = some out.acl;
    remote_addr = out.remote_addr;
    remote_port = out.remote_port;
    dial = out.dial;
    timeout = out.timeout;
  }

  -- the text and the port of the original destination
  unfoldable pub destination : ℕ → World → Option (List ℕ × ℕ)
  unfolding net_tcp_get_dest_sock_addr net_ip_present_by_sock_addr
  destination fd w = elim (net_tcp_get_dest_sock_addr (out.original fd w) out.ipv6_first) [
    | none ↦ none
    | some sa ↦ net_ip_present_by_sock_addr inet sa hostname_max_len
  ]

  -- `tcpServerOnAccept`: the remote is opened as in local.c.
  pub on_accept : Option ℕ → Counts → World → Result env
  unfolding tcp_client_new is_direct destination free
  on_accept cfd n w = elim (tcp_client_new env true raw_type cfd true out.timeout) [
    | none ↦ (freed, n, w)
    | some client ↦
        let n' = record n { client_count = increment n.client_count } in
        elim (destination client.conn.base.fd w) [
          | none ↦ free env client n' w
          | some (host, port) ↦
              open_remote env as_local (is_direct out.acl host) host port client n' w
        ]
  ]

  -- `tcpClientOnRead`; without a remote, a pointer that is NULL is followed.
  pub on_read : Client crypto → Counts → World → Result env
  unfolding settle free
  on_read client n w = elim client.remote [
    | none ↦ (undefined, n, w)
    | some remote ↦
        let (r, src, dst, w') = tcp_pipe env client.conn remote w in
        let client' : Client crypto = record { conn = src; remote = some dst } in
        if is_closed src.base.fired then free env client' n w' else settle env dst client' n w'
  ]

  -- `tcpRemoteOnConnect`
  pub on_connect : Client crypto → Conn crypto → Status → Counts → World → Result env
  unfolding prepare
  on_connect client remote tcp_err n w = (alive (record client { remote = some remote }), n, w)
  on_connect client remote tcp_ok n w = (alive (prepare env client remote), n, w)
