-- ===== src/Pipe.antt =====
-- `tcpPipe`, `tcpPipeWrite` and `tcpConnWriteHandler` of src/lib/protocol/tcp.c: the bytes read from
-- one connection are written to another; what it does not take stays in the read buffer, and the
-- first is not read again until the second has taken it.
--
-- `dst->pipe` is `src`: the functions take both ends. `dst->wbuf` points into the read buffer of `src`.
pub mod Cipher
pub mod Flow
pub mod Relay
pub mod Run
pub mod Progress
mod Tests
use xsocks.Base.{
  ℕ, ◌+◌, ◌-◌, Bool, true, List, [], ◌∷◌, ◌++◌, Option, none, some, length, take, drop,
  if◌then◌else◌,
}
use xsocks.Base.Int.{ℤ, pos, ◌-ℤ◌, is_pos, is_zero}
use xsocks.Net.{Input, Output}
use xsocks.Tcp.{
  TcpConn, Flags, Status, tcp_ok, tcp_err, write_fired, add_read, add_write, del_read, del_write,
  fire,
}
use xsocks.Tcp.Io.{handle_tcp_connection}
use xsocks.Conn.{Env, Conn, conn_read, conn_write}

-- the memory after `bs` is stored at `off`
abbrev pub splice : ℕ → List ℕ → List ℕ → List ℕ
splice off bs mem = take off mem ++ (bs ++ drop (off + length bs) mem)

-- `wbuf`, set to the start of the read buffer if it is NULL
abbrev pub start_of : Option ℕ → ℕ
start_of none = 0
start_of (some o) = o

-- `wbuf += n`
abbrev pub advance : Option ℕ → ℕ → Option ℕ
advance none n = none
advance (some o) n = some (o + n)

module _ (env : Env) where
  open env use {os, crypto}
  open os use {World}

  abbrev pub on_base : (TcpConn → TcpConn) → Conn crypto → Conn crypto
  on_base f c = record c { base = f c.base }

  -- `dst->wbuf_len` bytes at `dst->wbuf`, in the read buffer of `src`
  abbrev pub write_wbuf : Conn crypto → Conn crypto → World → Output × Conn crypto × World
  write_wbuf src dst w =
      conn_write env dst (drop (start_of dst.base.wbuf) src.base.rbuf) dst.base.wbuf_len w

  abbrev pub Piped : Type 0
  Piped = Output × Conn crypto × Conn crypto × World

  abbrev set_wbuf : Option ℕ → ℤ → Conn crypto → Conn crypto
  set_wbuf p len = on_base λ b. record b { wbuf = p; wbuf_len = len }

  abbrev rewind : Conn crypto → Conn crypto
  rewind = on_base λ b. record b { rbuf_off = 0 }

  -- The end of `tcpPipe`, when `n` of the bytes at `wbuf` are written; it returns `nread`.
  pub after_write : ℕ → ℕ → Conn crypto → Conn crypto → World → Piped
  unfolding add_read add_write
  after_write nread n src dst w =
      let left = dst.base.wbuf_len -ℤ pos n in
      let dst' = set_wbuf (advance dst.base.wbuf n) left dst in
      if is_pos left
      then (Output.count nread, on_base del_read src, on_base add_write dst', w)
      else (
        Output.count nread,
        on_base add_read (rewind src),
        on_base del_write (set_wbuf none (pos 0) dst'),
        w,
      )

  -- The bytes that were read, in the read buffer of `src`. (Behind them, a cipher leaves some of its own
  -- bytes; they are never read.)
  abbrev pub store : List ℕ → Conn crypto → Conn crypto
  store bs =
      on_base
        λ b. record b { rbuf = splice b.rbuf_off bs b.rbuf; rbuf_off = b.rbuf_off + length bs }

  -- `if (!dst->wbuf) dst->wbuf = src->rbuf; dst->wbuf_len = src->rbuf_off;`
  abbrev pub aim : Conn crypto → Conn crypto → Conn crypto
  aim src dst = set_wbuf (some (start_of dst.base.wbuf)) (pos src.base.rbuf_off) dst

  pub on_written : ℕ → Output → Conn crypto → Conn crypto → World → Piped
  on_written nread Output.fail src dst w = (Output.fail, src, dst, w)
  on_written nread Output.crash src dst w = (Output.crash, src, dst, w)
  on_written nread (Output.count n) src dst w = after_write nread n src dst w

  -- `tcpPipe` behind its read
  pub after_read : List ℕ → Conn crypto → Conn crypto → World → Piped
  after_read bs src dst w =
      let src' = store bs src in
      let (r, dst', w') = write_wbuf src' (aim src' dst) w in on_written (length bs) r src' dst' w'

  pub on_read : Input → Conn crypto → Conn crypto → World → Piped
  on_read Input.fail src dst w = (Output.fail, src, dst, w)
  on_read (Input.bytes []) src dst w = (Output.count 0, src, dst, w)
  on_read (Input.bytes (b ∷ bs)) src dst w = after_read (b ∷ bs) src dst w

  abbrev pub mark_piped : Conn crypto → Conn crypto
  mark_piped = on_base λ b. record b { flags = record (b.flags) { piped = true } }

  -- `tcpPipe`
  pub tcp_pipe : Conn crypto → Conn crypto → World → Piped
  tcp_pipe src dst w =
      let (r, src', w') = conn_read env src (length src.base.rbuf - src.base.rbuf_off) w in
      on_read r src' (mark_piped dst) w'

  pub on_rest_written : Output → Conn crypto → Conn crypto → World → Piped
  unfolding add_write
  on_rest_written Output.fail src dst w = (Output.fail, src, dst, w)
  on_rest_written Output.crash src dst w = (Output.crash, src, dst, w)
  on_rest_written (Output.count n) src dst w =
      let moved = set_wbuf (advance dst.base.wbuf n) (dst.base.wbuf_len -ℤ pos n) dst in
      (Output.count n, src, on_base add_write moved, w)

  -- `tcpPipeWrite` of `dst`
  pub tcp_pipe_write : Conn crypto → Conn crypto → World → Piped
  unfolding add_read
  tcp_pipe_write src dst w =
      let (r, dst', w') = write_wbuf src dst w in
      if is_zero dst.base.wbuf_len
      then (
        Output.count 0,
        on_base add_read (rewind src),
        on_base del_write (set_wbuf none (pos 0) dst),
        w,
      )
      else on_rest_written r src dst' w'

  -- `tcpConnWriteHandler` of `dst`
  pub tcp_conn_write_handler : Conn crypto → Conn crypto → World → Conn crypto × Conn crypto × World
  tcp_conn_write_handler src dst w =
      let (status, b, w') = handle_tcp_connection os dst.base w in
      let dst' = record dst { base = b } in
      elim status [
        | tcp_err ↦ (src, dst', w')
        | tcp_ok ↦
            if b.flags.piped
            then (let (r, src'', dst'', w'') = tcp_pipe_write src dst' w' in (src'', dst'', w''))
            else (src, on_base (λ b. fire b.handlers.on_write write_fired b) dst', w')
      ]
