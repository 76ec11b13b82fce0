-- ===== src/Module/Local/Counters.antt =====
-- The callbacks of src/app/local.c and the counters of its server.
use xsocks.Base.{
  ℕ, ◌+◌, ◌≡◌, refl, Bool, true, false, List, [], ◌∷◌, Option, none, some, length, arith,
  Option-cases, inl, inr,
}
use xsocks.Base.Int.{pos}
use xsocks.Net.{Input}
use xsocks.Socks5.{Parsed, out_of_bounds, err, ok, c_string, addr_parse, hostname_max_len}
use xsocks.Tcp.{Status, tcp_ok, tcp_err}
use xsocks.Tcp.Io.{tcp_accept}
use xsocks.TcpSocks5
use xsocks.TcpSocks5.{Socks5}
use xsocks.Conn.{
  Env, Conn, Kind, raw, socks5, shadowsocks, conn_read, conn_write, raw_type, shadowsocks_type,
}
use xsocks.Pipe.{splice, tcp_pipe}
use xsocks.Module.{Client, Counts, tcp_client_new, tcp_remote_new, undefined, Result, prepare}
use xsocks.Module.Counters.{
  remotes_of, remotes, left, Counted, Keeps, free-Keeps, settle-Keeps, remote_set-raw,
  remote_set-secure,
}
use xsocks.Module.Run.{TcpProgram}
use xsocks.Module.Local.{
  Outside, bypass, on_accept, on_read, on_state, on_stream, on_address, open_remote, set_kind,
  init_remote, with_remote, on_handshake, handshake, on_connect,
}

module _ (env : Env) (out : Outside env) where
  open env use {os, crypto, inet}
  open os use {World}

  set_kind-remotes :
      (f : Kind crypto → Kind crypto) (client : Client crypto)
      → remotes_of env (record client { remote = set_kind env out f client.remote })
        ≡ remotes_of env client
  unfolding set_kind
  set_kind-remotes f client = elim (Option-cases client.remote) [
    | inl e ↦ rw e refl
    | inr (remote, e) ↦ rw e refl
  ]

  pub open_remote-Keeps :
      (straight : Bool) (host : List ℕ) (port : ℕ) (client : Client crypto) (n : Counts) (w : World)
      → client.remote ≡ none
      → Keeps env client n (open_remote env out straight host port client n w)
  unfolding open_remote with_remote
  open_remote-Keeps true host port client n w e a b h def =
      let dialled = out.dial host port w in
      elim (Option-cases (tcp_remote_new env true raw_type dialled.0 true out.timeout client)) [
        | inl refused ↦ ground (arith, refused, e, free-Keeps env client n dialled.1 a b h)
        | inr (client', made) ↦
            ground (arith, made, e, remote_set-raw env client out.timeout dialled.0 client' made)
      ]
  open_remote-Keeps false host port client n w e a b h def =
      let dialled = out.dial out.remote_addr out.remote_port w in
      elim (Option-cases
        (tcp_remote_new env true shadowsocks_type dialled.0 true out.timeout client)) [
          | inl refused ↦ ground (arith, refused, e, free-Keeps env client n dialled.1 a b h)
          | inr (client', made) ↦ ground (
            arith,
            made,
            e,
            set_kind-remotes (init_remote env out host port) client',
            remote_set-secure env client out.timeout dialled.0 client' made,
          )
        ]

  on_handshake-Keeps :
      (r : Input) (client : Client crypto) (n : Counts) (w : World)
      → Keeps env client n (on_handshake env out r client n w)
  unfolding on_handshake
  on_handshake-Keeps Input.fail client n w a b h def =
      settle-Keeps env client.conn client n w a b h def
  on_handshake-Keeps (Input.bytes []) client n w a b h def = ground arith
  on_handshake-Keeps (Input.bytes (x ∷ xs)) client n w a b h def =
      let mem = splice 0 (x ∷ xs) client.conn.base.rbuf in
      let r = conn_write env client.conn mem (pos (length (x ∷ xs))) w in
      settle-Keeps env r.1 (record client { conn = r.1 }) n r.2 a b h def

  handshake-Keeps :
      (client : Client crypto) (n : Counts) (w : World)
      → Keeps env client n (handshake env out client n w)
  unfolding handshake
  handshake-Keeps client n w =
      let r = conn_read env client.conn (length client.conn.base.rbuf) w in
      on_handshake-Keeps r.0 (record client { conn = r.1 }) n r.2

  on_address-Keeps :
      (client : Client crypto) (n : Counts) (w : World) (p : Parsed)
      → client.remote ≡ none
      → Keeps env client n (on_address env out client n w p)
  unfolding on_address
  on_address-Keeps client n w out_of_bounds e a b h def = absurd (def refl)
  on_address-Keeps client n w err e a b h def = absurd (def refl)
  on_address-Keeps client n w (ok len addr) e a b h def =
      let host = c_string addr.host in
      open_remote-Keeps (bypass out.acl addr.atyp host) host addr.port client n w e a b h def

  on_stream-Keeps :
      (s : Socks5) (remote : Option (Conn crypto)) (client : Client crypto) (n : Counts) (w : World)
      → client.remote ≡ remote
      → Keeps env client n (on_stream env out s remote client n w)
  unfolding on_stream
  on_stream-Keeps s none client n w e a b h def = elim (Option-cases s.addrbuf_dest) [
    | inl lost ↦ absurd (def (rw lost refl))
    | inr (addr, dest) ↦ rw dest (
        on_address-Keeps client n w (addr_parse inet addr hostname_max_len) e a b h
          (rw dest at def))
  ]
  on_stream-Keeps s (some remote) client n w e a b h def =
      let r = tcp_pipe env client.conn remote w in
      let client' : Client crypto = record { conn = r.1; remote = some r.2 } in
      ground (arith, e, free-Keeps env client' n r.3 a b, settle-Keeps env r.2 client' n r.3 a b)

  on_state-Keeps :
      (state : TcpSocks5.State) (s : Socks5) (client : Client crypto) (n : Counts) (w : World)
      → Keeps env client n (on_state env out state s client n w)
  unfolding on_state
  on_state-Keeps TcpSocks5.init s client n w = handshake-Keeps client n w
  on_state-Keeps TcpSocks5.handshake s client n w = handshake-Keeps client n w
  on_state-Keeps TcpSocks5.stream s client n w = on_stream-Keeps s client.remote client n w refl

  -- `tcpClientOnRead` of a client whose connection is of the kind that `tcpClientNew` made it
  pub on_readable : Kind crypto → Client crypto → Counts → World → Result env
  unfolding on_read
  on_readable raw client n w = (undefined, n, w)
  on_readable (socks5 s) client n w = on_read env out s client n w
  on_readable (shadowsocks s) client n w = (undefined, n, w)

  pub on_readable-Keeps :
      (kind : Kind crypto) (client : Client crypto) (n : Counts) (w : World)
      → Keeps env client n (on_readable kind client n w)
  unfolding on_readable on_read
  on_readable-Keeps raw client n w a b h def = absurd (def refl)
  on_readable-Keeps (socks5 s) client n w a b h def = on_state-Keeps s.state s client n w a b h def
  on_readable-Keeps (shadowsocks s) client n w a b h def = absurd (def refl)

  pub on_connect-Keeps :
      (client : Client crypto) (remote : Conn crypto) (s : Status) (n : Counts) (w : World)
      → client.remote ≡ some remote
      → Keeps env client n (on_connect env out client remote s n w)
  unfolding on_connect prepare
  on_connect-Keeps client remote tcp_err n w e a b h def = ground arith
  on_connect-Keeps client remote tcp_ok n w e a b h def = ground arith

  pub on_accept-Counted :
      (fd : Option ℕ) (n : Counts) (a b : ℕ)
      → Counted env n a b
      → let (o, n') = on_accept env out fd n in
        Counted env n' (length (left env o) + a) (remotes env (left env o) + b)
  unfolding on_accept tcp_client_new tcp_accept
  on_accept-Counted none n a b h = ground arith
  on_accept-Counted (some fd) n a b h = ground arith

  -- the local program
  abbrev pub local_program : TcpProgram env
  local_program = record {
    on_accept = λ fd n w. let (o, n') = on_accept env out fd n in (o, n', w);
    on_read = λ client n w. on_readable client.conn.kind client n w;
    on_connect = on_connect env out;
    accepts = λ fd n w a b h def. on_accept-Counted fd n a b h;
    reads = λ client n w. on_readable-Keeps client.conn.kind client n w;
    connects = on_connect-Keeps;
  }
