-- ===== src/TcpShadowsocks/Pending.antt =====
-- A write of a shadowsocks connection that has older cipher text left: src/lib/protocol/tcp_shadowsocks.c.
use xsocks.Base.{ℕ, ◌≡◌, false, List, length, drop, arith, ◌==◌}
use xsocks.Base.Int.{ℤ, pos, negsuc}
use xsocks.Net.{Os, Output, net_tcp_write}
use xsocks.Tcp.{TcpConn}
use xsocks.Tcp.Io.{tcp_write}
use xsocks.TcpShadowsocks.{
  Crypto, Shadowsocks, stream, conn_write, write_in, write_data, write_pending, on_written,
}

module _ (cr : Crypto) (os : Os) where
  open os use {World}

  -- The bytes of the caller are not looked at: the cipher context stays, and the number that is returned
  -- is a number of older bytes.
  pub record Older (c : TcpConn) (s : Shadowsocks cr) (n : ℕ) (w : World)
      (out : Output × TcpConn × Shadowsocks cr × World) : Type 0 where
    pub result : out.0 ≡ Output.count n
    pub same : out.1 ≡ c
    pub ctx : out.2.e_ctx ≡ s.e_ctx

  tcp_write-count :
      (c : TcpConn) (bs : List ℕ) (w : World) (n : ℕ)
      → (net_tcp_write os c.fd bs w).0 ≡ Output.count n
      → ((tcp_write os c bs w).0 ≡ Output.count n) × ((tcp_write os c bs w).1 ≡ c)
  unfolding tcp_write
  tcp_write-count c bs w n e = ground (arith, e)

  pub conn_write-Older :
      (c : TcpConn) (s : Shadowsocks cr) (mem : List ℕ) (len : ℤ) (w : World) (n : ℕ)
      → s.state ≡ stream
      → (length s.tmp_buf == 0) ≡ false
      → (net_tcp_write os c.fd (drop s.tmp_buf_off s.tmp_buf) w).0 ≡ Output.count n
      → Older c s n w (conn_write cr os c s mem len w)
  unfolding conn_write write_in write_data write_pending on_written
  conn_write-Older c s mem (pos k) w n state older sent =
      ground (arith, state, older, tcp_write-count c (drop s.tmp_buf_off s.tmp_buf) w n sent)
  conn_write-Older c s mem (negsuc k) w n state older sent =
      ground (arith, state, older, tcp_write-count c (drop s.tmp_buf_off s.tmp_buf) w n sent)
