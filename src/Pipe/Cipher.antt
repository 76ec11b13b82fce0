-- ===== src/Pipe/Cipher.antt =====
-- A pipe to a shadowsocks connection that has cipher text left: `tcpPipe` of src/lib/protocol/tcp.c takes
-- the number of older cipher bytes for a number of the bytes that it read.
use xsocks.Base.{
  ℕ, ◌+◌, ◌-◌, ◌≤◌, ◌≡◌, refl, false, List, ◌++◌, none, some, length, length-append, drop, arith,
  ◌==◌, drop_all,
}
use xsocks.Base.Int.{pos}
use xsocks.Net.{Output, net_tcp_write}
use xsocks.Net.Posix.{Posix}
use xsocks.Tcp.{TcpConn, add_read, add_write}
use xsocks.TcpShadowsocks
use xsocks.TcpShadowsocks.{Shadowsocks}
use xsocks.TcpShadowsocks.Pending.{Older, conn_write-Older}
use xsocks.Conn.{Env, Kind, shadowsocks, Conn}
use xsocks.Conn.Dispatch.{conn_write-shadowsocks}
use xsocks.Pipe.{after_read, after_write, on_written, store, aim, start_of}
use xsocks.Pipe.Flow.{pending, window_rest}

module _ (env : Env) (p : Posix env.os) where
  open env use {os, crypto}
  open os use {World}

  -- the connection has encrypted nothing since `s`
  pub data Idle (s : Shadowsocks crypto) : Kind crypto → Type 0 where
    idle : {t : Shadowsocks crypto} → t.e_ctx ≡ s.e_ctx → Idle s (shadowsocks t)

  after_write-pending :
      (bs mem : List ℕ) (nread n : ℕ) (src dst : Conn crypto) (w : World)
      → src.base.rbuf ≡ bs ++ mem
      → dst.base.wbuf ≡ some 0
      → dst.base.wbuf_len ≡ pos (length bs)
      → n ≤ length bs
      → let out = after_write env nread n src dst w in
        (pending env p out.1 out.2 ≡ drop n bs) × (out.2.kind ≡ dst.kind)
  unfolding after_write add_read add_write
  after_write-pending bs mem nread n src dst w buf start len h =
      ground (arith, window_rest bs mem n (length bs - n), drop_all n bs, length-append bs mem)

  -- `tcpPipe` behind its read, where the write of the destination returns `n`
  written :
      (bs : List ℕ) (src : Conn crypto) (b : TcpConn) (s : Shadowsocks crypto) (w : World) (n : ℕ)
      → let src' = store env bs src in
        let dst' = aim env src' (record { base = b; kind = shadowsocks s }) in
        let out =
          TcpShadowsocks.conn_write crypto os dst'.base s
            (drop (start_of dst'.base.wbuf) src'.base.rbuf)
            dst'.base.wbuf_len
            w in
        out.0 ≡ Output.count n
        → after_read env bs src (record { base = b; kind = shadowsocks s }) w
          ≡ after_write env
              (length bs)
              n
              src'
              (record { base = out.1; kind = shadowsocks out.2 })
              out.3
  unfolding after_read on_written
  written bs src b s w n e =
      let src' : Conn crypto = store env bs src in
      let dst' : Conn crypto = aim env src' (record { base = b; kind = shadowsocks s }) in
      rw
        (
          conn_write-shadowsocks env dst'.base s (drop (start_of dst'.base.wbuf) src'.base.rbuf)
              dst'.base.wbuf_len w,
          e,
        )
        refl

  -- `tcpPipe` has read `bs` from a source whose read buffer was rewound. The destination is a
  -- shadowsocks connection in the state stream, with cipher text left, for which the pipe has
  -- nothing to write, and the kernel takes `n` bytes of that cipher text, no more than were read.
  -- Then the first `n` bytes of `bs` are lost: they are not among those still to write, and
  -- nothing was encrypted.
  pub after_read-skips :
      (bs : List ℕ) (src : Conn crypto) (b : TcpConn) (s : Shadowsocks crypto) (w : World) (n : ℕ)
      → s.state ≡ TcpShadowsocks.stream
      → (length s.tmp_buf == 0) ≡ false
      → b.wbuf ≡ none
      → src.base.rbuf_off ≡ 0
      → (net_tcp_write os b.fd (drop s.tmp_buf_off s.tmp_buf) w).0 ≡ Output.count n
      → n ≤ length bs
      → let out = after_read env bs src (record { base = b; kind = shadowsocks s }) w in
        (pending env p out.1 out.2 ≡ drop n bs) × Idle s out.2.kind
  after_read-skips bs src b s w n state older fresh off sent h =
      let src' : Conn crypto = store env bs src in
      let dst' : Conn crypto = aim env src' (record { base = b; kind = shadowsocks s }) in
      let mem : List ℕ = drop (start_of dst'.base.wbuf) src'.base.rbuf in
      let out = TcpShadowsocks.conn_write crypto os dst'.base s mem dst'.base.wbuf_len w in
      let o : Older crypto os dst'.base s n w out =
        conn_write-Older crypto os dst'.base s mem dst'.base.wbuf_len w n state older sent in
      let dst2 : Conn crypto = record { base = out.1; kind = shadowsocks out.2 } in
      let left =
        after_write-pending bs (drop (0 + length bs) src.base.rbuf) (length bs) n src' dst2 out.3
          (ground arith) (ground (arith, o.same)) (ground (arith, o.same)) h in
      let e = written bs src b s w n o.result in (rw e left.0, rw e (rw left.1 (idle o.ctx)))
