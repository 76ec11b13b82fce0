-- ===== src/Module/Server/FirstPacket.antt =====
-- The first packet of a shadowsocks client: the server connects to the address in it, and the bytes
-- behind the address are the first that the destination gets.
use xsocks.Base.{
  ℕ, ◌+◌, ◌-◌, ◌<◌, ◌≡◌, refl, sym, ◌∙◌, false, List, [], ◌∷◌, ◌++◌, append_assoc, append-nil, none,
  some, inl, length, length-append, take, drop, drop-length_append, take-length_append, arith,
}
use xsocks.Net.{Input}
use xsocks.Socks5.{
  Addr, out_of_bounds, ok, addr_init, addr_parse, c_string, atyp_domain, host_parse,
  hostname_max_len,
}
use xsocks.Socks5.Bounds.{addr_parse-in_bounds}
use xsocks.Tcp.{TcpConn}
use xsocks.Tcp.Io.{tcp_read}
use xsocks.Tcp.Frame.{tcp_read-Kept}
use xsocks.TcpShadowsocks
use xsocks.TcpShadowsocks.{Crypto, Shadowsocks, plain}
use xsocks.TcpShadowsocks.Request.{domain, parse-encoded, conn_read-first}
use xsocks.Conn.{Env, raw, shadowsocks, Conn}
use xsocks.Conn.Dispatch.{conn_read-shadowsocks}
use xsocks.Pipe.{splice}
use xsocks.Module.{Client, Counts, increment, alive}
use xsocks.Module.Remote.{tcp_remote_new-Remote}
use xsocks.Module.Server.{Outside, address_of, rewind, on_read, on_first_read, on_bytes, on_address}

-- the bytes that are moved to the start of the buffer are the payload
moved :
    (addr payload rest : List ℕ) (k : ℕ)
    → k ≡ length payload
    → take k (drop (length addr) ((addr ++ payload) ++ rest)) ≡ payload
moved addr payload rest k e =
    rw (e, append_assoc addr payload rest, drop-length_append addr (payload ++ rest))
      (take-length_append payload rest)

take-none : (xs payload : List ℕ) → length payload ≡ 0 → take (length payload) xs ≡ payload
take-none xs [] e = refl
take-none xs (p ∷ ps) e = absurd (omega arith)

module _ (env : Env) (out : Outside env) where
  open env use {os, crypto, inet}
  open os use {World}

  -- What is in the read buffer up to `rbuf_off`, after the first packet `addr ++ payload`.
  rewind-payload :
      (addr payload : List ℕ) (c : TcpConn)
      → c.rbuf_off ≡ 0
      → let c' = rewind env out (length addr) (addr ++ payload) c in
        (c'.rbuf_off ≡ length payload) × (take (length payload) c'.rbuf ≡ payload)
  unfolding rewind
  rewind-payload addr payload c off =
      let rest = drop (0 + length (addr ++ payload)) c.rbuf in
      let held = splice 0 (addr ++ payload) c.rbuf in
      let k = length (addr ++ payload) - length addr in
      let len : k ≡ length payload = omega (arith, length-append addr payload) in
      ground (
        arith,
        length-append addr payload,
        moved addr payload rest k len,
        len,
        take-length_append payload (drop (0 + length payload) held),
        take-none held payload,
      )

  -- what `tcpRemoteNew` and the rewinding leave
  pub record Waiting (fd : ℕ) (payload : List ℕ) (client : Client crypto) : Type 0 where
    pub remote : Conn crypto
    pub set : client.remote ≡ some remote
    pub remote_fd : remote.base.fd ≡ fd
    pub remote_kind : remote.kind ≡ raw
    pub off : client.conn.base.rbuf_off ≡ length payload
    pub held : take (length payload) client.conn.base.rbuf ≡ payload

  on_address-Waiting :
      (client : Client crypto) (n : Counts) (w : World) (host : List ℕ) (port : ℕ)
      (addr payload : List ℕ) (fd : ℕ)
      → client.conn.base.rbuf_off ≡ 0
      → address_of env out client.conn.kind ≡ addr
      → c_string host ≡ host
      → out.blocked atyp_domain host ≡ false
      → (out.dial host port w).0 ≡ some fd
      → (client' : Client crypto) × (on_address env out
            (addr ++ payload)
            client
            n
            w
            (ok (length addr) (domain host port))
          ≡ (
            alive client',
            record n { remote_count = increment n.remote_count },
            (out.dial host port w).1,
          ))
        × Waiting fd payload client'
  unfolding on_address
  on_address-Waiting client n w host port addr payload fd off at str open_ dial =
      let (made, new, r) = tcp_remote_new-Remote env fd out.timeout client in
      let c : TcpConn =
        rewind env out (length (address_of env out client.conn.kind)) (addr ++ payload)
          made.conn.base in
      let fills : (c.rbuf_off ≡ length payload) × (take (length payload) c.rbuf ≡ payload) =
        rw at (rewind-payload addr payload made.conn.base (r.rbuf_off ∙ off)) in
      (
        record made { conn = record { base = c; kind = made.conn.kind } },
        ground (arith, str, open_, dial, new),
        record {
          remote = r.remote;
          set = r.set;
          remote_fd = r.remote_fd;
          remote_kind = r.remote_kind;
          off = fills.0;
          held = fills.1;
        },
      )

  on_bytes-parsed :
      (addr payload : List ℕ) (client : Client crypto) (n : Counts) (w : World) (a : Addr)
      → address_of env out client.conn.kind ≡ addr
      → addr_parse inet addr hostname_max_len ≡ ok (length addr) a
      → on_bytes env out (Input.bytes (addr ++ payload)) client n w
        ≡ on_address env out (addr ++ payload) client n w (ok (length addr) a)
  unfolding on_bytes
  on_bytes-parsed [] payload client n w a e h =
      let lost : addr_parse inet [] hostname_max_len ≡ out_of_bounds =
        (addr_parse-in_bounds inet [] hostname_max_len).1 (inl refl) in
      absurd (cc (sym lost ∙ h))
  on_bytes-parsed (t ∷ addr) payload client n w a e h = rw (e, h) refl

  -- The first packet of a new client with an empty buffer, where one read gives it whole and it
  -- decrypts to the encoding of a domain name (below 256 bytes, no 0 byte) and a port of 16 bits,
  -- and a payload. Unless the acl blocks the name, and if dialling that name and port gives a
  -- descriptor, the client stays, has a raw remote on that descriptor, the remote is counted, and
  -- the read buffer up to `rbuf_off` is the payload.
  pub on_read-first :
      (b : TcpConn) (s : Shadowsocks crypto) (n : Counts) (w : World) (x : ℕ) (xs : List ℕ)
      → (host : List ℕ) (port : ℕ) (addr payload : List ℕ) (fd : ℕ) → b.rbuf_off ≡ 0
      → s.state ≡ TcpShadowsocks.init
      → (tcp_read os b (length b.rbuf) w).0 ≡ Input.bytes (x ∷ xs)
      → (crypto.decrypt (x ∷ xs) s.d_ctx).0 ≡ plain (addr ++ payload)
      → host_parse host ≡ atyp_domain
      → c_string host ≡ host
      → length host < 256
      → port < 65536
      → addr_init inet host port ≡ some addr
      → out.blocked atyp_domain host ≡ false
      → (out.dial host port (tcp_read os b (length b.rbuf) w).2).0 ≡ some fd
      → let client : Client crypto = record {
        conn = record { base = b; kind = shadowsocks s };
        remote = none;
      } in
        (client' : Client crypto) × (on_read env out client n w ≡ (
          alive client',
          record n { remote_count = increment n.remote_count },
          (out.dial host port (tcp_read os b (length b.rbuf) w).2).1,
        ))
        × Waiting fd payload client'
  unfolding on_read on_first_read
  on_read-first b s n w x xs host port addr payload fd off state got dec name str small p16 enc
        open_ dial =
      let b' : TcpConn = (tcp_read os b (length b.rbuf) w).1 in
      let w' : World = (tcp_read os b (length b.rbuf) w).2 in
      let s' : Shadowsocks crypto = record s {
        state = TcpShadowsocks.handshake;
        addrbuf_dest = addr;
        d_ctx = (crypto.decrypt (x ∷ xs) s.d_ctx).1;
      } in
      let client' : Client crypto = record {
        conn = record { base = b'; kind = shadowsocks s' };
        remote = none;
      } in
      let first =
        conn_read-first crypto inet os b s (length b.rbuf) w x xs host port addr payload state got
          dec name str small p16 enc in
      let parsed : addr_parse inet addr hostname_max_len ≡ ok (length addr) (domain host port) =
        rw (append-nil addr) at (parse-encoded inet host port addr [] name small p16 enc) in
      let (c, e, waiting) =
        on_address-Waiting client' n w' host port addr payload fd
          ((tcp_read-Kept os b (length b.rbuf) w).rbuf_off ∙ off) refl str open_ dial in
      (
        c,
        rw (conn_read-shadowsocks env b s (length b.rbuf) w, first)
            (on_bytes-parsed addr payload client' n w' (domain host port) refl parsed ∙ e),
        waiting,
      )
