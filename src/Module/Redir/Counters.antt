-- ===== src/Module/Redir/Counters.antt =====
-- The callbacks of src/app/redir.c and the counters of its server.
use xsocks.Base.{
  ℕ, suc, ◌+◌, ◌≡◌, refl, true, Option, none, some, length, arith, Option-cases, inl, inr,
}
use xsocks.Tcp.{Status, tcp_ok, tcp_err}
use xsocks.Tcp.Io.{tcp_accept}
use xsocks.Conn.{Env, Conn, raw_type}
use xsocks.Pipe.{tcp_pipe}
use xsocks.Module.{Client, Counts, tcp_client_new, undefined, prepare}
use xsocks.Module.Counters.{remotes_of, remotes, left, Counted, Keeps, free-Keeps, settle-Keeps}
use xsocks.Module.Run.{TcpProgram}
use xsocks.Module.Local.Counters.{open_remote-Keeps}
use xsocks.Module.Redir.{Outside, is_direct, as_local, destination, on_accept, on_read, on_connect}
use xsocks.Module.Redir.Request.{with_client}

module _ (env : Env) (out : Outside env) where
  open env use {os, crypto}
  open os use {World}

  client_idle :
      (cfd : Option ℕ) (client : Client crypto)
      → tcp_client_new env true raw_type cfd true out.timeout ≡ some client
      → client.remote ≡ none
  unfolding tcp_client_new tcp_accept
  client_idle none client e = cc
  client_idle (some fd) client e = ground (arith, e)

  accepted-Counted :
      (client : Client crypto) (n : Counts) (w : World) (a b : ℕ)
      → client.remote ≡ none
      → Counted env n a b
      → Counted env (with_client env out n) (suc a) (remotes_of env client + b)
  accepted-Counted client n w a b e h = ground (arith, e, h)

  pub on_accept-Counted :
      (cfd : Option ℕ) (n : Counts) (w : World) (a b : ℕ)
      → Counted env n a b
      → (((on_accept env out cfd n w).0 ≡ undefined) → ⊥)
      → let r = on_accept env out cfd n w in
        Counted env r.1 (length (left env r.0) + a) (remotes env (left env r.0) + b)
  unfolding on_accept
  on_accept-Counted cfd n w a b h def =
      elim (Option-cases (tcp_client_new env true raw_type cfd true out.timeout)) [
        | inl refused ↦ ground (arith, refused, h)
        | inr (client, new) ↦
            let idle = client_idle cfd client new in
            let n' = with_client env out n in
            let counted = accepted-Counted client n w a b idle h in
            elim (Option-cases (destination env out client.conn.base.fd w)) [
              | inl lost ↦ ground (arith, new, lost, free-Keeps env client n' w a b counted)
              | inr ((host, port), dest) ↦ ground (
                arith,
                new,
                dest,
                open_remote-Keeps env (as_local env out) (is_direct out.acl host) host port client
                    n' w idle a b counted,
              )
            ]
      ]

  pub on_read-Keeps :
      (client : Client crypto) (n : Counts) (w : World)
      → Keeps env client n (on_read env out client n w)
  unfolding on_read
  on_read-Keeps client n w a b h def = elim (Option-cases client.remote) [
    | inl idle ↦ absurd (def (rw (on_read, idle) refl))
    | inr (remote, e) ↦
        let r = tcp_pipe env client.conn remote w in
        let client' : Client crypto = record { conn = r.1; remote = some r.2 } in
        ground (arith, e, free-Keeps env client' n r.3 a b, settle-Keeps env r.2 client' n r.3 a b)
  ]

  pub on_connect-Keeps :
      (client : Client crypto) (remote : Conn crypto) (s : Status) (n : Counts) (w : World)
      → client.remote ≡ some remote
      → Keeps env client n (on_connect env out client remote s n w)
  unfolding on_connect prepare
  on_connect-Keeps client remote tcp_err n w e a b h def = ground arith
  on_connect-Keeps client remote tcp_ok n w e a b h def = ground arith

  -- the redir program
  abbrev pub redir_program : TcpProgram env
  redir_program = record {
    on_accept = on_accept env out;
    on_read = on_read env out;
    on_connect = on_connect env out;
    accepts = on_accept-Counted;
    reads = on_read-Keeps;
    connects = on_connect-Keeps;
  }
