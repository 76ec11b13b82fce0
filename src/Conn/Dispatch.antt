-- ===== src/Conn/Dispatch.antt =====
-- The protocol functions that TCP_READ and TCP_WRITE call.
use xsocks.Base.{ℕ, ◌≡◌, refl, List}
use xsocks.Base.Int.{ℤ}
use xsocks.Tcp.{TcpConn}
use xsocks.Tcp.Io.{tcp_write, slice}
use xsocks.TcpShadowsocks
use xsocks.TcpShadowsocks.{Shadowsocks}
use xsocks.Conn.{Env, raw, shadowsocks, conn_read, conn_write}

module _ (env : Env) where
  open env use {os, crypto, inet}
  open os use {World}

  pub conn_read-shadowsocks :
      (b : TcpConn) (s : Shadowsocks crypto) (n : ℕ) (w : World)
      → let (r, b', s', w') = TcpShadowsocks.conn_read crypto inet os b s n w in
        conn_read env (record { base = b; kind = shadowsocks s }) n w
        ≡ (r, record { base = b'; kind = shadowsocks s' }, w')
  unfolding conn_read
  conn_read-shadowsocks b s n w = refl

  pub conn_write-raw :
      (b : TcpConn) (mem : List ℕ) (len : ℤ) (w : World)
      → let (r, b', w') = tcp_write os b (slice mem len) w in
        conn_write env (record { base = b; kind = raw }) mem len w
        ≡ (r, record { base = b'; kind = raw }, w')
  unfolding conn_write
  conn_write-raw b mem len w = refl

  pub conn_write-shadowsocks :
      (b : TcpConn) (s : Shadowsocks crypto) (mem : List ℕ) (len : ℤ) (w : World)
      → let (r, b', s', w') = TcpShadowsocks.conn_write crypto os b s mem len w in
        conn_write env (record { base = b; kind = shadowsocks s }) mem len w
        ≡ (r, record { base = b'; kind = shadowsocks s' }, w')
  unfolding conn_write
  conn_write-shadowsocks b s mem len w = refl
