-- ===== src/Module/EndToEnd.antt =====
-- The local or redir program and the server program together: from the request of a client to the
-- connection that the server makes for it (src/app/local.c, src/app/redir.c, src/app/server.c).
mod Tests
use xsocks.Base.{
  ℕ, ◌<◌, ◌≡◌, refl, sym, ap, ◌∙◌, true, false, List, [], ◌∷◌, ◌++◌, append_assoc, none, some,
  length, take, arith, take_all,
}
use xsocks.Base.Int.{pos}
use xsocks.Net.{Input, Output}
use xsocks.Net.Posix.{Posix}
use xsocks.Socks5.{addr_init, c_string, atyp_domain, host_parse}
use xsocks.Tcp.{TcpConn}
use xsocks.Tcp.Io.{tcp_read, tcp_write}
use xsocks.Tcp.Frame.{tcp_write-stream, tcp_write-Kept}
use xsocks.TcpShadowsocks
use xsocks.TcpShadowsocks.{Shadowsocks, plain}
use xsocks.TcpShadowsocks.First.{StreamInverse, conn_write-first}
use xsocks.Conn.{Env, Conn, raw, shadowsocks, conn_write}
use xsocks.Conn.Dispatch.{conn_write-shadowsocks}
use xsocks.Module.{Client, Counts, increment, alive, Result}
use xsocks.Module.Remote.{fresh}
use xsocks.Module.Local
use xsocks.Module.Local.Request.{Opened}
use xsocks.Module.Server
use xsocks.Module.Server.FirstPacket.{Waiting, on_read-first}

module _ (env : Env) (inv : StreamInverse env.crypto) (p : Posix env.os) (near : Local.Outside env)
    (far : Server.Outside env) where
  open env use {os, crypto, inet}
  open os use {World}
  open p use {outbox}

  -- The kernel takes the header `addr` and the payload from the connection `c`, as the cipher texts `ta`
  -- and `tb`; `w` and `w2` are before and after.
  pub record Takes (c : TcpConn) (addr payload ta tb : List ℕ) (w w2 : World) : Type 0 where
    pub c1 : TcpConn
    pub c2 : TcpConn
    pub w1 : World
    pub header : (crypto.encrypt addr (crypto.ctx_init true)).0 ≡ some ta
    pub body : (crypto.encrypt payload (crypto.encrypt addr (crypto.ctx_init true)).1).0 ≡ some tb
    pub sent : tcp_write os c ta w ≡ (Output.count (length ta), c1, w1)
    pub sent_on : tcp_write os c1 tb w1 ≡ (Output.count (length tb), c2, w2)

  sends-all :
      (c : TcpConn) (addr payload ta tb : List ℕ) (fd : ℕ) (w w2 : World)
      → c.fd ≡ fd
      → Takes c addr payload ta tb w w2
      → outbox fd w2 ≡ outbox fd w ++ (ta ++ tb)
  sends-all c addr payload ta tb fd w w2 e t =
      let first = tcp_write-stream os p c fd ta w in
      let second = tcp_write-stream os p t.c1 fd tb t.w1 in
      let kept = (tcp_write-Kept os c ta w).fd in
      ground (
        arith,
        t.sent,
        t.sent_on,
        first.0,
        second.0,
        kept,
        e,
        take_all (length ta) ta,
        take_all (length tb) tb,
        append_assoc (outbox fd w) ta tb,
      )

  -- What a client asks of the local or the redir program, the server does. A program has opened, for a
  -- request with the header `addr` of a name and a port, a shadowsocks connection on `fd` (as
  -- on_read-proxied and on_accept-Opened say it does), and writes the client's first bytes to it, of
  -- which the kernel takes all. Then what `fd` has sent is two cipher texts. Where a new client of the
  -- server program delivers just these in one read, and the acl does not block the name, the server
  -- dials that name and port, gives the client a raw connection on the descriptor, and holds exactly the
  -- client's bytes for it. (The name is shorter than 256 bytes and has no 0 byte, the port has 16 bits,
  -- the dialling gives a descriptor, and decrypting undoes encrypting.)
  pub local-server :
      (host : List ℕ) (port : ℕ) (addr payload : List ℕ)
      → host_parse host ≡ atyp_domain
      → c_string host ≡ host
      → length host < 256
      → port < 65536
      → addr_init inet host port ≡ some addr
      → (fd : ℕ) (r : Result env) (m : Counts) (w0 : World)
      → (o : Opened env near (shadowsocks (record (fresh env) { addrbuf_dest = addr })) fd r m w0)
      → (ta tb : List ℕ) (w w2 : World) → Takes o.remote.base addr payload ta tb w w2
      → (b : TcpConn) (n : Counts) (u : World) (x : ℕ) (xs : List ℕ) (fd' : ℕ) → b.rbuf_off ≡ 0
      → (tcp_read os b (length b.rbuf) u).0 ≡ Input.bytes (x ∷ xs)
      → ta ++ tb ≡ x ∷ xs
      → far.blocked atyp_domain host ≡ false
      → (far.dial host port (tcp_read os b (length b.rbuf) u).2).0 ≡ some fd'
      → let client : Client crypto = record {
        conn = record { base = b; kind = shadowsocks (fresh env) };
        remote = none;
      } in
        ((conn_write env o.remote payload (pos (length payload)) w).2 ≡ w2)
        × (outbox fd w2 ≡ outbox fd w ++ (ta ++ tb))
        × (client' : Client crypto) × (Server.on_read env far client n u ≡ (
          alive client',
          record n { remote_count = increment n.remote_count },
          (far.dial host port (tcp_read os b (length b.rbuf) u).2).1,
        ))
        × Waiting env far fd' payload client'
  local-server host port addr payload name str small p16 enc fd r m w0 o ta tb w w2 t b n u x xs fd'
        off got same open_ dial =
      let s : Shadowsocks crypto = record (fresh env) { addrbuf_dest = addr } in
      let wrote =
        conn_write-first crypto os o.remote.base t.c1 t.c2 s payload ta tb w t.w1 w2 refl refl refl
          t.header t.body t.sent t.sent_on in
      let dec : (crypto.decrypt (x ∷ xs) (crypto.ctx_init false)).0 ≡ plain (addr ++ payload) =
        rw same at (inv.decrypt-encrypt addr payload ta tb t.header t.body) in
      let (client', e, waiting) =
        on_read-first env far b (fresh env) n u x xs host port addr payload fd' off refl got dec
          name str small p16 enc open_ dial in
      (
        ground (
          arith,
          o.remote_kind,
          wrote,
          conn_write-shadowsocks env o.remote.base s payload (pos (length payload)) w,
        ),
        sends-all o.remote.base addr payload ta tb fd w w2 o.remote_fd t,
        client',
        e,
        waiting,
      )
