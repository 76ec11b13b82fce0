-- ===== src/TcpSocks5/Replies.antt =====
-- What one read and one write of a SOCKS5 connection do: src/lib/protocol/tcp_socks5.c.
use xsocks.Base.{
  ℕ, zero, suc, ◌≤◌, ◌≡◌, refl, ap, ◌∙◌, List, [], ◌∷◌, ◌++◌, length, take, take_all, take-nil,
  length-take, arith,
}
use xsocks.Base.Int.{ℤ, pos, negsuc}
use xsocks.Net.{Os, Output}
use xsocks.Net.Posix.{Posix, input_bytes, output_count}
use xsocks.Socks5.{Inet}
use xsocks.Tcp.{TcpConn}
use xsocks.Tcp.Io.{tcp_read, tcp_write, slice}
use xsocks.Tcp.Frame.{give_up-fd, tcp_read-Kept, tcp_read-stream, tcp_write-Kept, tcp_write-stream}
use xsocks.TcpSocks5.{
  Socks5, State, init, handshake, stream, auth_resp, connect_resp, conn_read, conn_write, on_bytes,
  on_request, on_reply, reply, write_in, conn_init, error_auth, error_handshake,
  error_not_supported,
}

take-take : (k n : ℕ) (xs : List ℕ) → k ≤ n → take k (take n xs) ≡ take k xs
take-take zero n xs h = refl
take-take (suc k) zero xs h = absurd (omega arith)
take-take (suc k) (suc n) [] h = refl
take-take (suc k) (suc n) (x ∷ xs) h = ap (λ t. x ∷ t) (take-take k n xs (omega arith))

-- the first bytes that a write was given
take-slice :
    (mem : List ℕ) (len : ℤ) (k : ℕ)
    → k ≤ length (slice mem len)
    → take k (slice mem len) ≡ take k mem
take-slice mem (negsuc n) k h = ground (arith, take-nil {A = ℕ} k)
take-slice mem (pos n) k h = take-take k n mem (omega (arith, length-take n mem))

module _ (os : Os) (p : Posix os) where
  open os use {World}
  open p use {inbox, outbox}

  on_bytes-same :
      (inet : Inet) (bs : List ℕ) (c : TcpConn) (s : Socks5) (st : State)
      → let (r, c', s') = on_bytes inet bs c s st in (c'.fd ≡ c.fd) × (s'.state ≡ s.state)
  unfolding on_bytes on_request conn_init
  on_bytes-same inet bs c s init = ground (arith, give_up-fd error_auth c)
  on_bytes-same inet bs c s handshake = ground (arith, give_up-fd error_handshake c)
  on_bytes-same inet bs c s stream = ground arith

  -- A read changes neither the state nor what was sent.
  pub conn_read-same :
      (inet : Inet) (c : TcpConn) (s : Socks5) (n : ℕ) (w : World)
      → let (r, c', s', w') = conn_read inet os c s n w in
        (c'.fd ≡ c.fd) × (s'.state ≡ s.state) × (outbox c.fd w' ≡ outbox c.fd w)
  unfolding conn_read
  conn_read-same inet c s n w =
      let out = tcp_read os c n w in
      let kept : out.1.fd ≡ c.fd = (tcp_read-Kept os c n w).fd in
      let sent : outbox c.fd out.2 ≡ outbox c.fd w = (tcp_read-stream os p c n c.fd w).2 in
      ground (
        arith,
        give_up-fd error_not_supported c,
        kept,
        sent,
        on_bytes-same inet (input_bytes out.0) out.1 s s.state,
      )

  -- What a write that does not fail sends in a state: the reply, or of the caller's bytes the `n` that it
  -- returns.
  abbrev pub sends : State → List ℕ → ℕ → List ℕ
  sends init mem n = auth_resp
  sends handshake mem n = connect_resp
  sends stream mem n = take n mem

  -- the state behind it
  abbrev pub after : State → State
  after init = handshake
  after handshake = stream
  after stream = stream

  pub record Written (c : TcpConn) (s : Socks5) (mem : List ℕ) (n : ℕ) (w : World)
      (out : Output × TcpConn × Socks5 × World) : Type 0 where
    pub state : out.2.state ≡ after s.state
    pub fd : out.1.fd ≡ c.fd
    pub sent : outbox c.fd out.3 ≡ outbox c.fd w ++ sends s.state mem n

  reply-sent :
      (resp : List ℕ) (st : State) (c : TcpConn) (s : Socks5) (w : World) (n : ℕ)
      → (reply os resp st c s w).0 ≡ Output.count n
      → let out = reply os resp st c s w in
        (out.2.state ≡ st) × (out.1.fd ≡ c.fd) × (outbox c.fd out.3 ≡ outbox c.fd w ++ resp)
  unfolding reply on_reply
  reply-sent resp st c s w n ok =
      let kept : (tcp_write os c resp w).1.fd ≡ c.fd = (tcp_write-Kept os c resp w).fd in
      ground (arith, kept, (tcp_write-stream os p c c.fd resp w).0, take_all (length resp) resp)

  written :
      {st : State} {mem : List ℕ} {n : ℕ} {c : TcpConn} {s : Socks5} {w : World}
      → (out : Output × TcpConn × Socks5 × World) → s.state ≡ st
      → (out.2.state ≡ after st)
        × (out.1.fd ≡ c.fd)
        × (outbox c.fd out.3 ≡ outbox c.fd w ++ sends st mem n)
      → Written c s mem n w out
  written out e (state, fd, sent) = record { state = rw e state; fd = fd; sent = rw e sent }

  write_in-Written :
      (c : TcpConn) (s : Socks5) (mem : List ℕ) (len : ℤ) (w : World) (st : State) (n : ℕ)
      → s.state ≡ st
      → (write_in os st c s mem len w).0 ≡ Output.count n
      → Written c s mem n w (write_in os st c s mem len w)
  unfolding write_in
  write_in-Written c s mem len w init n e ok =
      written (reply os auth_resp handshake c s w) e (reply-sent auth_resp handshake c s w n ok)
  write_in-Written c s mem len w handshake n e ok =
      written (reply os connect_resp stream c s w) e (reply-sent connect_resp stream c s w n ok)
  write_in-Written c s mem len w stream n e ok =
      let out = tcp_write os c (slice mem len) w in
      let st = tcp_write-stream os p c c.fd (slice mem len) w in
      let all : output_count out.0 ≡ n = rw ok refl in
      written (out.0, out.1, s, out.2) e
        (
          e,
          (tcp_write-Kept os c (slice mem len) w).fd,
          st.0
              ∙ ap (λ t. outbox c.fd w ++ t) (take-slice mem len (output_count out.0) st.1)
              ∙ ap (λ k. outbox c.fd w ++ take k mem) all,
        )

  pub conn_write-Written :
      (c : TcpConn) (s : Socks5) (mem : List ℕ) (len : ℤ) (w : World) (n : ℕ)
      → (conn_write os c s mem len w).0 ≡ Output.count n
      → Written c s mem n w (conn_write os c s mem len w)
  unfolding conn_write
  conn_write-Written c s mem len w n ok =
      ground (arith, write_in-Written c s mem len w s.state n refl)
