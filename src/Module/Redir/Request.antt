-- ===== src/Module/Redir/Request.antt =====
-- The remote that the redir program (src/app/redir.c) makes for an accepted connection.
use xsocks.Base.{
  ℕ, ◌≡◌, refl, true, List, Option, none, some, arith, Bool-cases, inl, inr, if◌then◌else◌,
}
use xsocks.Base.Int.{ℤ}
use xsocks.Socks5.{addr_init}
use xsocks.Tcp.{add_read}
use xsocks.Tcp.Io.{tcp_accept, tcp_conn_new, tcp_conn_init}
use xsocks.Tcp.Frame.{tcp_init-fd}
use xsocks.Conn.{Env, raw, shadowsocks, raw_type, conn_new}
use xsocks.Module.{Client, Counts, increment, tcp_client_new}
use xsocks.Module.Remote.{fresh}
use xsocks.Module.Local.{open_remote}
use xsocks.Module.Local.Request.{Opened, open_remote-secure, open_remote-raw}
use xsocks.Module.Redir.{Outside, is_direct, as_local, destination, on_accept}

module _ (env : Env) (out : Outside env) where
  open env use {os, crypto, inet}
  open os use {World}

  client_new-raw :
      (cfd : ℕ) (timeout : ℤ)
      → (client : Client crypto) × (tcp_client_new env true raw_type (some cfd) true timeout
          ≡ some client)
        × (client.conn.base.fd ≡ cfd)
        × (client.remote ≡ none)
  unfolding tcp_client_new tcp_accept conn_new add_read tcp_conn_new tcp_conn_init
  client_new-raw cfd timeout = (_, refl, tcp_init-fd _, refl)

  -- the counters behind the accepted client
  abbrev pub with_client : Counts → Counts
  with_client n = record n { client_count = increment n.client_count }

  on_accept-open :
      (cfd : ℕ) (n : Counts) (w : World) (host : List ℕ) (port : ℕ)
      → destination env out cfd w ≡ some (host, port)
      → (client : Client crypto) × (on_accept env out (some cfd) n w
          ≡ open_remote env
              (as_local env out)
              (is_direct out.acl host)
              host
              port
              client
              (with_client n)
              w)
  unfolding on_accept
  on_accept-open cfd n w host port dest =
      let (client, new, fd, idle) = client_new-raw cfd out.timeout in
      (client, ground (arith, new, fd, dest))

  -- what the program dials for a destination
  abbrev dialled : List ℕ → ℕ → World → Option ℕ × World
  dialled host port w =
      if is_direct out.acl host
      then out.dial host port w
      else out.dial out.remote_addr out.remote_port w

  -- A connection that the kernel has redirected goes to its original destination, through the server
  -- unless the acl says otherwise. Where the original destination has the text `host` and the port
  -- `port`, an accepted client gets a remote: if the acl lets it go straight, a raw one that was
  -- dialled to `host` and `port`; if not, a shadowsocks one that was dialled to the configured server,
  -- whose address to send is the encoding of `host` and `port`. The client and the remote are counted.
  -- (The dialling gives a descriptor, and the encoding exists.)
  pub on_accept-Opened :
      (cfd : ℕ) (n : Counts) (w : World) (host : List ℕ) (port : ℕ) (addr : List ℕ) (fd : ℕ)
      → destination env out cfd w ≡ some (host, port)
      → addr_init inet host port ≡ some addr
      → (dialled host port w).0 ≡ some fd
      → Opened env
          (as_local env out)
          (if is_direct out.acl host
            then raw
            else shadowsocks (record (fresh env) { addrbuf_dest = addr }))
          fd
          (on_accept env out (some cfd) n w)
          (with_client n)
          (dialled host port w).1
  on_accept-Opened cfd n w host port addr fd dest enc got =
      let (client, opens) = on_accept-open cfd n w host port dest in
      let local = as_local env out in
      elim (Bool-cases (is_direct out.acl host)) [
        | inl straight ↦
            rw (opens, straight)
              (open_remote-raw env local client (with_client n) w host port fd (rw straight at got))
        | inr proxied ↦
            let (c, remote, e, set, remote_fd, kind) =
              open_remote-secure env local client (with_client n) w host port fd addr enc
                (rw proxied at got) in
            rw (opens, proxied)
              (record {
                client = c;
                remote = remote;
                outcome = e;
                set = set;
                remote_fd = remote_fd;
                remote_kind = kind;
              })
      ]
