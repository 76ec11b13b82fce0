-- ===== src/TcpShadowsocks/First.antt =====
-- The first bytes that a shadowsocks connection writes: the address and the data, encrypted one after the
-- other.
use xsocks.Base.{ℕ, true, false, ◌≡◌, List, [], ◌++◌, some, length, arith, take_all, ==_iff}
use xsocks.Base.Int.{pos}
use xsocks.Net.{Os, Output}
use xsocks.Tcp.{TcpConn}
use xsocks.Tcp.Io.{tcp_write}
use xsocks.TcpShadowsocks.{
  Crypto, Shadowsocks, init, handshake, plain, conn_write, write_in, on_address, write_data,
  encrypt_plain, write_pending, on_written,
}

module _ (cr : Crypto) where
  open cr use {Ctx, ctx_init, encrypt, decrypt}

  -- What the protocol relies on of the ciphers: two texts that were encrypted one after the other by a new
  -- context are decrypted together by a new context.
  pub record StreamInverse : Type 0 where
    pub decrypt-encrypt :
        (a b ta tb : List ℕ)
        → (encrypt a (ctx_init true)).0 ≡ some ta
        → (encrypt b (encrypt a (ctx_init true)).1).0 ≡ some tb
        → (decrypt (ta ++ tb) (ctx_init false)).0 ≡ plain (a ++ b)

  module _ (os : Os) where
    open os use {World}

    -- `tcpShadowsocksConnWrite` of a new connection, where the kernel takes all of both texts
    pub conn_write-first :
        (c c1 c2 : TcpConn) (s : Shadowsocks cr) (payload ta tb : List ℕ) (w w1 w2 : World)
        → s.state ≡ init
        → s.tmp_buf ≡ []
        → s.tmp_buf_off ≡ 0
        → (encrypt s.addrbuf_dest s.e_ctx).0 ≡ some ta
        → (encrypt payload (encrypt s.addrbuf_dest s.e_ctx).1).0 ≡ some tb
        → tcp_write os c ta w ≡ (Output.count (length ta), c1, w1)
        → tcp_write os c1 tb w1 ≡ (Output.count (length tb), c2, w2)
        → ((conn_write cr os c s payload (pos (length payload)) w).0 ≡ Output.count (length tb))
          × ((conn_write cr os c s payload (pos (length payload)) w).2.state ≡ handshake)
          × ((conn_write cr os c s payload (pos (length payload)) w).3 ≡ w2)
    unfolding conn_write write_in on_address write_data encrypt_plain write_pending on_written
    conn_write-first c c1 c2 s payload ta tb w w1 w2 state empty off ea ep sa sp = ground (
      arith,
      state,
      empty,
      off,
      ea,
      ep,
      sa,
      sp,
      take_all (length payload) payload,
      ==_iff (length ta) (length ta),
      ==_iff (length tb) (length tb),
    )
