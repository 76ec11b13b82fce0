-- ===== src/Module/Local/Request.antt =====
-- A SOCKS5 client whose handshake is done: the remote that the local program makes for its request.
use xsocks.Base.{
  ℕ, ◌<◌, ◌≡◌, refl, ap, true, false, List, [], append-nil, none, some, length, arith,
}
use xsocks.Socks5.{ok, addr_init, addr_parse, c_string, atyp_domain, host_parse, hostname_max_len}
use xsocks.TcpSocks5
use xsocks.TcpSocks5.{Socks5}
use xsocks.TcpShadowsocks.{Shadowsocks}
use xsocks.TcpShadowsocks.Request.{domain, parse-encoded, conn_init-encoded}
use xsocks.Conn.{Env, Kind, raw, shadowsocks, Conn}
use xsocks.Module.{Client, Counts, increment, alive, Result}
use xsocks.Module.Remote.{fresh, tcp_remote_new-Remote, tcp_remote_new_secure}
use xsocks.Module.Local.{
  Outside, bypass, on_read, on_state, on_stream, on_address, open_remote, init_remote, set_kind,
  with_remote,
}

module _ (env : Env) (out : Outside env) where
  open env use {os, crypto, inet}
  open os use {World}

  -- The request is decided by `open_remote` with the host and port that were asked for.
  on_read-open :
      (s : Socks5) (client : Client crypto) (n : Counts) (w : World) (host : List ℕ) (port : ℕ)
      (addr : List ℕ)
      → s.state ≡ TcpSocks5.stream
      → s.addrbuf_dest ≡ some addr
      → client.remote ≡ none
      → host_parse host ≡ atyp_domain
      → c_string host ≡ host
      → length host < 256
      → port < 65536
      → addr_init inet host port ≡ some addr
      → on_read env out s client n w
        ≡ open_remote env out (bypass out.acl atyp_domain host) host port client n w
  unfolding on_read on_state on_stream on_address
  on_read-open s client n w host port addr state dest idle name str small p16 enc =
      let parsed : addr_parse inet addr hostname_max_len ≡ ok (length addr) (domain host port) =
        rw (append-nil addr) at (parse-encoded inet host port addr [] name small p16 enc) in
      rw (on_read, state, idle, dest, parsed, str) refl

  init_remote-fresh :
      (host : List ℕ) (port : ℕ) (addr : List ℕ)
      → addr_init inet host port ≡ some addr
      → init_remote env out host port (shadowsocks (fresh env))
        ≡ shadowsocks (record (fresh env) { addrbuf_dest = addr })
  unfolding init_remote
  init_remote-fresh host port addr enc =
      ap (λ t. shadowsocks t) (conn_init-encoded crypto inet (fresh env) host port addr enc)

  -- the remote to the server of the configuration carries the address
  pub open_remote-secure :
      (client : Client crypto) (n : Counts) (w : World) (host : List ℕ) (port fd : ℕ)
      (addr : List ℕ)
      → addr_init inet host port ≡ some addr
      → (out.dial out.remote_addr out.remote_port w).0 ≡ some fd
      → (client' : Client crypto) × (remote : Conn crypto) × (open_remote env out false host port
            client n w
          ≡ (
            alive client',
            record n { remote_count = increment n.remote_count },
            (out.dial out.remote_addr out.remote_port w).1,
          ))
        × (client'.remote ≡ some remote)
        × (remote.base.fd ≡ fd)
        × (remote.kind ≡ shadowsocks (record (fresh env) { addrbuf_dest = addr }))
  unfolding open_remote set_kind with_remote
  open_remote-secure client n w host port fd addr enc got =
      let (made, new, r) = tcp_remote_new_secure env fd out.timeout client in
      let secure : Shadowsocks crypto = record (fresh env) { addrbuf_dest = addr } in
      let c : Conn crypto = record { base = r.remote.base; kind = shadowsocks secure } in
      (
        record made { remote = some c },
        c,
        ground (arith, got, new, r.set, r.remote_kind, init_remote-fresh host port addr enc),
        refl,
        r.remote_fd,
        refl,
      )

  -- the client, with the remote that waits for its connection
  pub record Opened (new_kind : Kind crypto) (fd : ℕ) (r : Result env) (n : Counts) (w : World)
      : Type 0 where
    pub client : Client crypto
    pub remote : Conn crypto
    pub outcome : r ≡ (alive client, record n { remote_count = increment n.remote_count }, w)
    pub set : client.remote ≡ some remote
    pub remote_fd : remote.base.fd ≡ fd
    pub remote_kind : remote.kind ≡ new_kind

  pub open_remote-raw :
      (client : Client crypto) (n : Counts) (w : World) (host : List ℕ) (port fd : ℕ)
      → (out.dial host port w).0 ≡ some fd
      → Opened raw fd (open_remote env out true host port client n w) n (out.dial host port w).1
  unfolding open_remote with_remote
  open_remote-raw client n w host port fd got =
      let (made, new, r) = tcp_remote_new-Remote env fd out.timeout client in
      record {
        client = made;
        remote = r.remote;
        outcome = ground (arith, got, new);
        set = r.set;
        remote_fd = r.remote_fd;
        remote_kind = r.remote_kind;
      }

  -- A client behind its handshake that asked for a domain name (below 256 bytes, no 0 byte) and a
  -- port of 16 bits, and has no remote. Where the acl lets it bypass the server, and dialling that
  -- name and port gives a descriptor, it gets a raw connection on that descriptor, and the remote
  -- is counted.
  pub on_read-bypassed :
      (s : Socks5) (client : Client crypto) (n : Counts) (w : World) (host : List ℕ) (port : ℕ)
      (addr : List ℕ)
      → (fd : ℕ) → s.state ≡ TcpSocks5.stream
      → s.addrbuf_dest ≡ some addr
      → client.remote ≡ none
      → host_parse host ≡ atyp_domain
      → c_string host ≡ host
      → length host < 256
      → port < 65536
      → addr_init inet host port ≡ some addr
      → bypass out.acl atyp_domain host ≡ true
      → (out.dial host port w).0 ≡ some fd
      → Opened raw fd (on_read env out s client n w) n (out.dial host port w).1
  on_read-bypassed s client n w host port addr fd state dest idle name str small p16 enc straight
        got =
      let o : Opened raw fd (open_remote env out true host port client n w) n
          (out.dial host port w).1 =
        open_remote-raw client n w host port fd got in
      rw (on_read-open s client n w host port addr state dest idle name str small p16 enc, straight)
        o

  -- A client behind its handshake that asked for a domain name (below 256 bytes, no 0 byte) and a
  -- port of 16 bits, and has no remote. Where the acl does not let it bypass the server, and
  -- dialling the configured server gives a descriptor, it gets a new shadowsocks connection on
  -- that descriptor, whose address to send is the encoding of that name and port, and the remote
  -- is counted.
  pub on_read-proxied :
      (s : Socks5) (client : Client crypto) (n : Counts) (w : World) (host : List ℕ) (port : ℕ)
      (addr : List ℕ)
      → (fd : ℕ) → s.state ≡ TcpSocks5.stream
      → s.addrbuf_dest ≡ some addr
      → client.remote ≡ none
      → host_parse host ≡ atyp_domain
      → c_string host ≡ host
      → length host < 256
      → port < 65536
      → addr_init inet host port ≡ some addr
      → bypass out.acl atyp_domain host ≡ false
      → (out.dial out.remote_addr out.remote_port w).0 ≡ some fd
      → Opened
          (shadowsocks (record (fresh env) { addrbuf_dest = addr }))
          fd
          (on_read env out s client n w)
          n
          (out.dial out.remote_addr out.remote_port w).1
  on_read-proxied s client n w host port addr fd state dest idle name str small p16 enc proxied
        got =
      let (c, remote, e, set, remote_fd, kind) =
        open_remote-secure client n w host port fd addr enc got in
      rw (on_read-open s client n w host port addr state dest idle name str small p16 enc, proxied)
        (record {
          client = c;
          remote = remote;
          outcome = e;
          set = set;
          remote_fd = remote_fd;
          remote_kind = kind;
        })
