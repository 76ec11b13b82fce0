-- ===== src/Conn.antt =====
-- The connection types of src/lib/protocol/proxy.h: the `read`, `write` and `close` that a `tcpConn`
-- holds as function pointers (TCP_READ, TCP_WRITE, CONN_CLOSE), set by tcpRawConnNew (raw.c),
-- tcpSocks5ConnNew and tcpShadowsocksConnNew, which tcpConnNew of src/app/module/module_tcp.c chooses.
pub mod Dispatch
pub mod Loopback
pub mod Plain
use xsocks.Base.{ℕ, List}
use xsocks.Base.Int.{ℤ}
use xsocks.Net.{Os, Input, Output}
use xsocks.Socks5.{Inet}
use xsocks.Tcp.{TcpConn}
use xsocks.Tcp.Io.{tcp_init, tcp_read, tcp_write, tcp_close, slice}
use xsocks.TcpSocks5
use xsocks.TcpSocks5.{Socks5}
use xsocks.TcpShadowsocks
use xsocks.TcpShadowsocks.{Crypto, Shadowsocks}

-- All that the relay takes from outside: the kernel, the ciphers, the address texts.
pub record Env : Type 1 where
  pub os : Os
  pub crypto : Crypto
  pub inet : Inet

-- CONN_TYPE_RAW, CONN_TYPE_SOCKS5 and CONN_TYPE_SHADOWSOCKS
pub data ConnType : Type 0 where
  raw_type socks5_type shadowsocks_type : ConnType

-- What stands behind the `tcpConn`: nothing, or the state of the protocol.
pub data Kind (cr : Crypto) : Type 0 where
  raw : Kind cr
  socks5 : Socks5 → Kind cr
  shadowsocks : Shadowsocks cr → Kind cr

pub record Conn (cr : Crypto) : Type 0 where
  pub base : TcpConn
  pub kind : Kind cr

module _ (env : Env) where
  open env use {os, crypto, inet}
  open os use {World}

  -- `tcpConnNew` of module_tcp.c
  unfoldable pub conn_new : ConnType → TcpConn → Conn crypto
  conn_new raw_type c = record { base = tcp_init c; kind = raw }
  conn_new socks5_type c =
      let (c', s) = TcpSocks5.conn_new c in record { base = c'; kind = socks5 s }
  conn_new shadowsocks_type c =
      let (c', s) = TcpShadowsocks.conn_new crypto c in record { base = c'; kind = shadowsocks s }

  read_kind : Kind crypto → TcpConn → ℕ → World → Input × Conn crypto × World
  read_kind raw c n w =
      let (r, c', w') = tcp_read os c n w in (r, record { base = c'; kind = raw }, w')
  read_kind (socks5 s) c n w =
      let (r, c', s', w') = TcpSocks5.conn_read inet os c s n w in
      (r, record { base = c'; kind = socks5 s' }, w')
  read_kind (shadowsocks s) c n w =
      let (r, c', s', w') = TcpShadowsocks.conn_read crypto inet os c s n w in
      (r, record { base = c'; kind = shadowsocks s' }, w')

  -- TCP_READ of at most `n` bytes
  unfoldable pub conn_read : Conn crypto → ℕ → World → Input × Conn crypto × World
  unfolding read_kind
  conn_read c n w = read_kind c.kind c.base n w

  write_kind : Kind crypto → TcpConn → List ℕ → ℤ → World → Output × Conn crypto × World
  write_kind raw c mem len w =
      let (r, c', w') = tcp_write os c (slice mem len) w in
      (r, record { base = c'; kind = raw }, w')
  write_kind (socks5 s) c mem len w =
      let (r, c', s', w') = TcpSocks5.conn_write os c s mem len w in
      (r, record { base = c'; kind = socks5 s' }, w')
  write_kind (shadowsocks s) c mem len w =
      let (r, c', s', w') = TcpShadowsocks.conn_write crypto os c s mem len w in
      (r, record { base = c'; kind = shadowsocks s' }, w')

  -- TCP_WRITE of `len` bytes from a pointer at `mem`
  unfoldable pub conn_write : Conn crypto → List ℕ → ℤ → World → Output × Conn crypto × World
  unfolding write_kind
  conn_write c mem len w = write_kind c.kind c.base mem len w

  -- CONN_CLOSE: each protocol frees what is its own, and ends with `tcpClose`.
  unfoldable pub conn_close : Conn crypto → World → Conn crypto × World
  conn_close c w = let (b, w') = tcp_close os c.base w in (record c { base = b }, w')
