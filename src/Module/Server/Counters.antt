-- ===== src/Module/Server/Counters.antt =====
-- The callbacks of src/app/server.c and the counters of its server.
use xsocks.Base.{
  ℕ, ◌+◌, ◌≡◌, refl, true, List, [], ◌∷◌, Option, none, some, length, arith, Option-cases, inl, inr,
}
use xsocks.Base.Int.{pos}
use xsocks.Net.{Input, Output}
use xsocks.Socks5.{Parsed, out_of_bounds, err, ok, c_string}
use xsocks.Tcp.{Status, tcp_ok, tcp_err}
use xsocks.Tcp.Io.{tcp_accept}
use xsocks.Conn.{Env, Conn, conn_read, conn_write, raw_type}
use xsocks.Pipe.{tcp_pipe}
use xsocks.Module.{Client, Counts, tcp_client_new, tcp_remote_new, prepare}
use xsocks.Module.Counters.{remotes, left, Counted, Keeps, free-Keeps, settle-Keeps, remote_set-raw}
use xsocks.Module.Run.{TcpProgram}
use xsocks.Module.Server.{
  Outside, on_accept, on_read, on_first_read, on_bytes, on_address, on_connect, on_left_written,
}

module _ (env : Env) (out : Outside env) where
  open env use {os, crypto}
  open os use {World}

  on_address-Keeps :
      (bs : List ℕ) (client : Client crypto) (n : Counts) (w : World) (r : Parsed)
      → client.remote ≡ none
      → Keeps env client n (on_address env out bs client n w r)
  unfolding on_address
  on_address-Keeps bs client n w out_of_bounds e a b h def = absurd (def refl)
  on_address-Keeps bs client n w err e a b h def = absurd (def refl)
  on_address-Keeps bs client n w (ok len addr) e a b h def =
      let host = c_string addr.host in
      let dialled = out.dial host addr.port w in
      elim (Option-cases (tcp_remote_new env true raw_type dialled.0 true out.timeout client)) [
        | inl refused ↦ ground (
          arith,
          refused,
          e,
          free-Keeps env client n w a b h,
          free-Keeps env client n dialled.1 a b h,
        )
        | inr (client', made) ↦ ground (
          arith,
          made,
          e,
          free-Keeps env client n w a b h,
          remote_set-raw env client out.timeout dialled.0 client' made,
        )
      ]

  on_bytes-Keeps :
      (r : Input) (client : Client crypto) (n : Counts) (w : World)
      → client.remote ≡ none
      → Keeps env client n (on_bytes env out r client n w)
  unfolding on_bytes
  on_bytes-Keeps Input.fail client n w e a b h def =
      settle-Keeps env client.conn client n w a b h def
  on_bytes-Keeps (Input.bytes []) client n w e a b h def = ground arith
  on_bytes-Keeps (Input.bytes (x ∷ xs)) client n w e a b h def =
      on_address-Keeps (x ∷ xs) client n w _ e a b h def

  -- `tcpClientOnRead` keeps the counters right.
  pub on_read-Keeps :
      (client : Client crypto) (n : Counts) (w : World)
      → Keeps env client n (on_read env out client n w)
  unfolding on_read on_first_read
  on_read-Keeps client n w a b h def = elim (Option-cases client.remote) [
    | inl first ↦
        let r = conn_read env client.conn (length client.conn.base.rbuf) w in
        rw (on_read, first)
          (on_bytes-Keeps r.0 (record client { conn = r.1 }) n r.2 first a b h
            (rw (on_read, first) at def))
    | inr (remote, piped) ↦
        let r = tcp_pipe env client.conn remote w in
        let client' : Client crypto = record { conn = r.1; remote = some r.2 } in
        ground
          (arith, piped, free-Keeps env client' n r.3 a b, settle-Keeps env r.2 client' n r.3 a b)
  ]

  on_left-Keeps :
      (r : Output) (client : Client crypto) (remote remote' : Conn crypto) (n : Counts) (w : World)
      → client.remote ≡ some remote
      → Keeps env client n (on_left_written env out r client remote' n w)
  unfolding on_left_written prepare
  on_left-Keeps Output.fail client remote remote' n w e a b h def =
      ground (arith, e, settle-Keeps env remote' (record client { remote = some remote' }) n w a b)
  on_left-Keeps Output.crash client remote remote' n w e a b h def = absurd (def refl)
  on_left-Keeps (Output.count k) client remote remote' n w e a b h def =
      ground (arith, e, free-Keeps env (record client { remote = some remote' }) n w a b)

  -- `tcpRemoteOnConnect` keeps the counters right.
  pub on_connect-Keeps :
      (client : Client crypto) (remote : Conn crypto) (s : Status) (n : Counts) (w : World)
      → client.remote ≡ some remote
      → Keeps env client n (on_connect env out client remote s n w)
  unfolding on_connect prepare
  on_connect-Keeps client remote tcp_err n w e a b h def = ground arith
  on_connect-Keeps client remote tcp_ok n w e a b h def =
      let b' = client.conn.base in
      let r = conn_write env remote b'.rbuf (pos b'.rbuf_off) w in
      ground (arith, e, on_left-Keeps r.0 client remote r.1 n r.2 e a b h)

  -- `tcpServerOnAccept` adds the client that it makes, if any.
  pub on_accept-Counted :
      (fd : Option ℕ) (n : Counts) (a b : ℕ)
      → Counted env n a b
      → let (o, n') = on_accept env out fd n in
        Counted env n' (length (left env o) + a) (remotes env (left env o) + b)
  unfolding on_accept tcp_client_new tcp_accept
  on_accept-Counted none n a b h = ground arith
  on_accept-Counted (some fd) n a b h = ground arith

  -- the server program
  abbrev pub server_program : TcpProgram env
  server_program = record {
    on_accept = λ fd n w. let (o, n') = on_accept env out fd n in (o, n', w);
    on_read = on_read env out;
    on_connect = on_connect env out;
    accepts = λ fd n w a b h def. on_accept-Counted fd n a b h;
    reads = on_read-Keeps;
    connects = on_connect-Keeps;
  }
