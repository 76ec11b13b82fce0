-- ===== src/Pipe/Run.antt =====
-- The events of a pipe, in any order: `tcpPipe` when the source is readable, `tcpPipeWrite` when the
-- destination is writable.
use xsocks.Base.{
  ℕ, ◌≡◌, refl, sym, ap, ◌∙◌, true, false, List, [], ◌++◌, append-nil, Option, none, some, take,
  drop, arith, Bool-cases, inl, inr,
}
use xsocks.Base.Int.{ℤ, pos, negsuc, pos_part, neg_part, is_zero}
use xsocks.Net.{Output}
use xsocks.Net.Posix.{Posix}
use xsocks.Tcp.Io.{slice}
use xsocks.Conn.{Env, Conn, conn_write}
use xsocks.Conn.Plain.{IsPlain, WritePlain, conn_write-WritePlain}
use xsocks.Pipe.{tcp_pipe, tcp_pipe_write, start_of}
use xsocks.Pipe.Flow.{is_added, Relay, pending, flow, IsRelay}
use xsocks.Pipe.Relay.{tcp_pipe-Moved, on_rest-Moved}

slice_pos : (mem : List ℕ) (len : ℤ) → neg_part len ≡ 0 → slice mem len ≡ take (pos_part len) mem
slice_pos mem (pos n) e = refl
slice_pos mem (negsuc n) e = cc

zero_or_some :
    (z : ℤ) (o : Option ℕ) → (o ≡ none → z ≡ pos 0) → is_zero z ≡ false → (k : ℕ) × (o ≡ some k)
zero_or_some z none h e = absurd (cc (ap is_zero (h refl)))
zero_or_some z (some k) h e = (k, refl)

module _ (env : Env) (p : Posix env.os) where
  open env use {os, crypto}
  open os use {World}
  open p use {inbox, outbox}

  pub tcp_pipe_write-Moved :
      (r : Relay env p) (n : ℕ)
      → IsRelay env p r
      → (tcp_pipe_write env r.src r.dst r.world).0 ≡ Output.count n
      → let out = tcp_pipe_write env r.src r.dst r.world in
        (flow env p (record { src = out.1; dst = out.2; world = out.3 }) ≡ flow env p r)
        × IsRelay env p (record { src = out.1; dst = out.2; world = out.3 })
  unfolding tcp_pipe_write
  tcp_pipe_write-Moved r n v ok = elim (Bool-cases (is_zero r.dst.base.wbuf_len)) [
    | inl done ↦
        let plain_src : IsPlain r.src.kind = v.plain_src in
        let plain_dst : IsPlain r.dst.kind = v.plain_dst in
        (ground (arith, done), ground (arith, done, plain_src, plain_dst, v))
    | inr more ↦
        let (o, at) = zero_or_some r.dst.base.wbuf_len r.dst.base.wbuf v.idle_len more in
        let mem : List ℕ = drop (start_of r.dst.base.wbuf) r.src.base.rbuf in
        let out : Output × Conn crypto × World =
          conn_write env r.dst mem r.dst.base.wbuf_len r.world in
        let wr : WritePlain env p r.dst r.src.base.fd (pending env p r.src r.dst) r.world out =
          rw (slice_pos mem r.dst.base.wbuf_len v.not_negative) at (
            conn_write-WritePlain env p r.dst r.src.base.fd mem r.dst.base.wbuf_len r.world
              v.plain_dst) in
        rw more (on_rest-Moved env p r.src r.dst r.world n o out v at wr (rw more at ok))
  ]

  -- An event of the loop, for a descriptor whose event is added, that does not end the connection.
  pub data Step (r r' : Relay env p) : Type 0 where
    readable :
        (n : ℕ)
        → is_added r.src.base.re ≡ true
        → tcp_pipe env r.src r.dst r.world ≡ (Output.count n, r'.src, r'.dst, r'.world)
        → Step r r'
    writable :
        (n : ℕ)
        → is_added r.dst.base.we ≡ true
        → tcp_pipe_write env r.src r.dst r.world ≡ (Output.count n, r'.src, r'.dst, r'.world)
        → Step r r'

  pub data Reach (r : Relay env p) : Relay env p → Type 0 where
    here : Reach r r
    next : {s t : Relay env p} → Reach r s → Step s t → Reach r t

  step-flow :
      {r s : Relay env p}
      → IsRelay env p r
      → Step r s
      → (flow env p s ≡ flow env p r) × IsRelay env p s
  step-flow {r} {s} v (readable n h e) =
      rw e at (tcp_pipe-Moved env p r n v (v.reads_idle h) (ap (λ t. t.0) e))
  step-flow {r} {s} v (writable n h e) = rw e at (tcp_pipe_write-Moved r n v (ap (λ t. t.0) e))

  -- Two plain connections (raw, or SOCKS5 behind the handshake) over a kernel whose sockets are
  -- byte streams, in a state with the invariant `IsRelay`. Whatever the order of the events that
  -- do not end a connection, and however the kernel splits reads and writes: what the destination
  -- was sent, then what waits in the buffer, then what the source has still to deliver is always
  -- the same sequence of bytes, and the invariant is kept.
  pub Reach-flow :
      {r s : Relay env p}
      → IsRelay env p r
      → Reach r s
      → (flow env p s ≡ flow env p r) × IsRelay env p s
  Reach-flow v here = (refl, v)
  Reach-flow v (next r st) =
      let (e, v') = Reach-flow v r in let (e', v'') = step-flow v' st in (e' ∙ e, v'')

  -- Two plain connections (raw, or SOCKS5 behind the handshake) over a kernel whose sockets are
  -- byte streams, in a state with the invariant `IsRelay`. In every state reached by events that
  -- do not end a connection, if nothing is left to write and the source has nothing more to
  -- deliver, the destination has been sent everything: what it was sent at the start, what waited
  -- in the buffer then, and all that the source had to deliver, in order.
  pub Reach-delivered :
      {r s : Relay env p}
      → IsRelay env p r
      → Reach r s
      → s.dst.base.wbuf ≡ none
      → inbox s.src.base.fd s.world ≡ []
      → outbox s.dst.base.fd s.world ≡ flow env p r
  Reach-delivered {r} {s} v steps idle ended =
      let (e, v') = Reach-flow v steps in
      let none_left : pending env p s.src s.dst ≡ [] = rw (v'.idle_len idle) in
      sym (append-nil (outbox s.dst.base.fd s.world))
      ∙ ap (λ t. outbox s.dst.base.fd s.world ++ t) (ground (arith, none_left, ended))
      ∙ e
