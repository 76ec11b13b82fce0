-- ===== src/Conn/Plain.antt =====
-- The connections that carry bytes unchanged: raw ones, and SOCKS5 ones behind their handshake.
use xsocks.Base.{ℕ, ◌≤◌, ◌≡◌, refl, false, List, ◌++◌, length, take, arith}
use xsocks.Base.Int.{ℤ}
use xsocks.Net.{Input, Output}
use xsocks.Net.Posix.{Posix, input_bytes, output_count}
use xsocks.Tcp.{TcpConn}
use xsocks.Tcp.Io.{tcp_read, tcp_write, slice}
use xsocks.Tcp.Frame.{Kept, tcp_read-Kept, tcp_read-stream, tcp_write-Kept, tcp_write-stream}
use xsocks.TcpSocks5
use xsocks.TcpSocks5.{Socks5}
use xsocks.TcpShadowsocks.{Crypto}
use xsocks.Conn.{Env, Kind, raw, socks5, shadowsocks, Conn, conn_read, conn_write}

abbrev pub IsPlain : {cr : Crypto} → Kind cr → Type 0
IsPlain raw = Unit
IsPlain (socks5 s) = (s.state ≡ TcpSocks5.stream) × (s.is_client ≡ false)
IsPlain (shadowsocks s) = ⊥

module _ (env : Env) (p : Posix env.os) where
  open env use {os, crypto}
  open os use {World}
  open p use {inbox, outbox}

  -- the same protocol state, and the same connection but for its timer and error
  pub record Same (c c' : Conn crypto) : Type 0 where
    pub kind : c'.kind ≡ c.kind
    pub base : Kept c.base c'.base

  -- what a read of at most `n` bytes has done, as seen from another descriptor `g`
  pub record ReadPlain (c : Conn crypto) (n g : ℕ) (w : World) (out : Input × Conn crypto × World)
      : Type 0 where
    pub same : Same c out.1
    pub stream : inbox c.base.fd w ≡ input_bytes out.0 ++ inbox c.base.fd out.2
    pub room : length (input_bytes out.0) ≤ n
    pub sent : outbox g out.2 ≡ outbox g w

  -- what a write of `buf` has done
  pub record WritePlain (c : Conn crypto) (g : ℕ) (buf : List ℕ) (w : World)
      (out : Output × Conn crypto × World) : Type 0 where
    pub same : Same c out.1
    pub stream : outbox c.base.fd out.2 ≡ outbox c.base.fd w ++ take (output_count out.0) buf
    pub room : output_count out.0 ≤ length buf
    pub kept : inbox g out.2 ≡ inbox g w

  -- SOCKS5 behind its handshake reads and writes as `tcpRead` and `tcpWrite`
  socks5_read :
      (b : TcpConn) (s : Socks5) (n : ℕ) (w : World)
      → s.state ≡ TcpSocks5.stream
      → s.is_client ≡ false
      → let (r, b', w') = tcp_read os b n w in
        TcpSocks5.conn_read env.inet os b s n w ≡ (r, b', s, w')
  unfolding TcpSocks5.conn_read
  socks5_read b s n w e f = ground arith

  socks5_write :
      (b : TcpConn) (s : Socks5) (mem : List ℕ) (len : ℤ) (w : World)
      → s.state ≡ TcpSocks5.stream
      → s.is_client ≡ false
      → let (r, b', w') = tcp_write os b (slice mem len) w in
        TcpSocks5.conn_write os b s mem len w ≡ (r, b', s, w')
  unfolding TcpSocks5.conn_write
  socks5_write b s mem len w e f = ground arith

  read_plain :
      (k : Kind crypto) (b : TcpConn) (n g : ℕ) (w : World)
      → IsPlain k
      → let c : Conn crypto = record { base = b; kind = k } in
        ReadPlain c n g w (conn_read env c n w)
  unfolding conn_read
  read_plain raw b n g w h = ground (arith, tcp_read-Kept os b n w, tcp_read-stream os p b n g w)
  read_plain (socks5 s) b n g w h =
      ground
        (arith, tcp_read-Kept os b n w, tcp_read-stream os p b n g w, socks5_read b s n w h.0 h.1)
  read_plain (shadowsocks s) b n g w h = elim h [ ]

  write_plain :
      (k : Kind crypto) (b : TcpConn) (g : ℕ) (mem : List ℕ) (len : ℤ) (w : World)
      → IsPlain k
      → let c : Conn crypto = record { base = b; kind = k } in
        WritePlain c g (slice mem len) w (conn_write env c mem len w)
  unfolding conn_write
  write_plain raw b g mem len w h =
      ground
        (arith, tcp_write-Kept os b (slice mem len) w, tcp_write-stream os p b g (slice mem len) w)
  write_plain (socks5 s) b g mem len w h = ground (
    arith,
    tcp_write-Kept os b (slice mem len) w,
    tcp_write-stream os p b g (slice mem len) w,
    socks5_write b s mem len w h.0 h.1,
  )
  write_plain (shadowsocks s) b g mem len w h = elim h [ ]

  -- Reading a plain connection hands over the next bytes of its stream.
  pub conn_read-ReadPlain :
      (c : Conn crypto) (n g : ℕ) (w : World)
      → IsPlain c.kind
      → ReadPlain c n g w (conn_read env c n w)
  conn_read-ReadPlain c n g w h = read_plain c.kind c.base n g w h

  -- Writing to a plain connection sends a prefix of the bytes.
  pub conn_write-WritePlain :
      (c : Conn crypto) (g : ℕ) (mem : List ℕ) (len : ℤ) (w : World)
      → IsPlain c.kind
      → WritePlain c g (slice mem len) w (conn_write env c mem len w)
  conn_write-WritePlain c g mem len w h = write_plain c.kind c.base g mem len w h

  read_base :
      (k : Kind crypto) (b : TcpConn) (n : ℕ) (w : World)
      → IsPlain k
      → (conn_read env (record { base = b; kind = k }) n w).0 ≡ (tcp_read os b n w).0
  unfolding conn_read
  read_base raw b n w h = refl
  read_base (socks5 s) b n w h = ground (arith, socks5_read b s n w h.0 h.1)
  read_base (shadowsocks s) b n w h = elim h [ ]

  write_base :
      (k : Kind crypto) (b : TcpConn) (mem : List ℕ) (len : ℤ) (w : World)
      → IsPlain k
      → (conn_write env (record { base = b; kind = k }) mem len w).0
        ≡ (tcp_write os b (slice mem len) w).0
  unfolding conn_write
  write_base raw b mem len w h = refl
  write_base (socks5 s) b mem len w h = ground (arith, socks5_write b s mem len w h.0 h.1)
  write_base (shadowsocks s) b mem len w h = elim h [ ]

  -- A plain connection returns what `tcpRead` and `tcpWrite` do.
  pub conn_read-plain :
      (c : Conn crypto) (n : ℕ) (w : World)
      → IsPlain c.kind
      → (conn_read env c n w).0 ≡ (tcp_read os c.base n w).0
  conn_read-plain c n w h = read_base c.kind c.base n w h

  pub conn_write-plain :
      (c : Conn crypto) (mem : List ℕ) (len : ℤ) (w : World)
      → IsPlain c.kind
      → (conn_write env c mem len w).0 ≡ (tcp_write os c.base (slice mem len) w).0
  conn_write-plain c mem len w h = write_base c.kind c.base mem len w h
