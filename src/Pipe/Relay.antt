-- ===== src/Pipe/Relay.antt =====
-- Every step of a pipe between plain connections keeps its byte stream.
use xsocks.Base.{
  ℕ, zero, suc, ◌+◌, ◌-◌, ◌≤◌, ◌≡◌, ◌∙◌, List, [], ◌∷◌, ◌++◌, none, some, length, length-take,
  length-drop, take, drop, drop-add, take_cong, take-nil, arith,
}
use xsocks.Base.Int.{pos, pos_part}
use xsocks.Net.{Input, Output}
use xsocks.Net.Posix.{Posix, input_bytes}
use xsocks.Conn.{Env, Conn, conn_read}
use xsocks.Conn.Plain.{IsPlain, Same, ReadPlain, WritePlain, conn_read-ReadPlain}
use xsocks.Pipe.{tcp_pipe, on_read, on_rest_written, after_read, mark_piped, start_of}
use xsocks.Pipe.Flow.{Relay, pending, flow, IsRelay, Moved, after_read-Moved, step_flow}

drop-take : (n k : ℕ) (xs : List ℕ) → n ≤ k → take (k - n) (drop n xs) ≡ drop n (take k xs)
drop-take zero k xs h = take_cong xs (omega arith)
drop-take (suc n) zero xs h = absurd (omega arith)
drop-take (suc n) (suc k) [] h = take-nil (suc k - suc n)
drop-take (suc n) (suc k) (x ∷ xs) h =
    take_cong (drop n xs) {m = suc k - suc n} {n = k - n} (omega arith)
    ∙ drop-take n k xs (omega arith)

module _ (env : Env) (p : Posix env.os) where
  open env use {os, crypto}
  open os use {World}
  open p use {inbox, outbox}

  -- a relay that has nothing left to write has no pending bytes
  pending_idle : (src dst : Conn crypto) → dst.base.wbuf_len ≡ pos 0 → pending env p src dst ≡ []
  pending_idle src dst e = rw e

  on_read-Moved :
      (src src' dst : Conn crypto) (w : World) (n : ℕ) (i : Input) (w' : World)
      → IsRelay env p (record { src = src; dst = dst; world = w })
      → dst.base.wbuf ≡ none
      → Same env p src src'
      → inbox src.base.fd w ≡ input_bytes i ++ inbox src.base.fd w'
      → outbox dst.base.fd w' ≡ outbox dst.base.fd w
      → (on_read env i src' (mark_piped env dst) w').0 ≡ Output.count n
      → let out = on_read env i src' (mark_piped env dst) w' in
        (flow env p (record { src = out.1; dst = out.2; world = out.3 })
          ≡ flow env p (record { src = src; dst = dst; world = w }))
        × IsRelay env p (record { src = out.1; dst = out.2; world = out.3 })
  unfolding on_read
  on_read-Moved src src' dst w n Input.fail w' v idle s i o ok = cc
  on_read-Moved src src' dst w n (Input.bytes []) w' v idle s i o ok =
      let plain : IsPlain src'.kind = rw s.kind v.plain_src in
      let plain_dst : IsPlain dst.kind = v.plain_dst in
      (ground (arith, s.base, i, o), ground (arith, v, s.base, plain, plain_dst))
  on_read-Moved src src' dst w n (Input.bytes (b ∷ bs)) w' v idle s i o ok =
      let plain : IsPlain src'.kind = rw s.kind v.plain_src in
      let m : Moved env p (b ∷ bs) src' (mark_piped env dst) w'
          (after_read env (b ∷ bs) src' (mark_piped env dst) w') =
        after_read-Moved env p (b ∷ bs) src' (mark_piped env dst) w' n plain v.plain_dst idle
          (s.base.rbuf_off ∙ v.idle_off idle) ok in
      let nothing : pending env p src dst ≡ [] = pending_idle src dst (v.idle_len idle) in
      (m.flows ∙ ground (arith, s.base, i, o, nothing), m.relay)

  -- `tcpPipe` where nothing is left to write, if it does not fail
  pub tcp_pipe-Moved :
      (r : Relay env p) (n : ℕ)
      → IsRelay env p r
      → r.dst.base.wbuf ≡ none
      → (tcp_pipe env r.src r.dst r.world).0 ≡ Output.count n
      → let out = tcp_pipe env r.src r.dst r.world in
        (flow env p (record { src = out.1; dst = out.2; world = out.3 }) ≡ flow env p r)
        × IsRelay env p (record { src = out.1; dst = out.2; world = out.3 })
  unfolding tcp_pipe
  tcp_pipe-Moved r n v idle ok =
      let room : ℕ = length r.src.base.rbuf - r.src.base.rbuf_off in
      let out : Input × Conn crypto × World = conn_read env r.src room r.world in
      let rd : ReadPlain env p r.src room r.dst.base.fd r.world out =
        conn_read-ReadPlain env p r.src room r.dst.base.fd r.world v.plain_src in
      on_read-Moved r.src out.1 r.dst r.world n out.0 out.2 v idle rd.same rd.stream rd.sent ok

  -- the pending bytes after `n` more of them are written
  pending_less :
      (src dst : Conn crypto) (n o : ℕ)
      → dst.base.wbuf ≡ some o
      → n ≤ pos_part dst.base.wbuf_len
      → take (pos_part dst.base.wbuf_len - n) (drop (o + n) src.base.rbuf)
        ≡ drop n (pending env p src dst)
  pending_less src dst n o e h =
      rw (← drop-add o n src.base.rbuf, e)
        (drop-take n (pos_part dst.base.wbuf_len) (drop o src.base.rbuf) h)

  pub on_rest-Moved :
      (src dst : Conn crypto) (w : World) (n o : ℕ) (out : Output × Conn crypto × World)
      → IsRelay env p (record { src = src; dst = dst; world = w })
      → dst.base.wbuf ≡ some o
      → WritePlain env p dst src.base.fd (pending env p src dst) w out
      → (on_rest_written env out.0 src out.1 out.2).0 ≡ Output.count n
      → let r = on_rest_written env out.0 src out.1 out.2 in
        (flow env p (record { src = r.1; dst = r.2; world = r.3 })
          ≡ flow env p (record { src = src; dst = dst; world = w }))
        × IsRelay env p (record { src = r.1; dst = r.2; world = r.3 })
  unfolding on_rest_written
  on_rest-Moved src dst w n o (Output.fail, c, w') v at wr ok = cc
  on_rest-Moved src dst w n o (Output.crash, c, w') v at wr ok = cc
  on_rest-Moved src dst w n o (Output.count k, c, w') v at wr ok =
      let plain : IsPlain c.kind = rw wr.same.kind v.plain_dst in
      let plain_src : IsPlain src.kind = v.plain_src in
      let size : length (pending env p src dst) ≡ pos_part dst.base.wbuf_len = omega (
        arith,
        v,
        length-take (pos_part dst.base.wbuf_len) (drop (start_of dst.base.wbuf) src.base.rbuf),
        length-drop (start_of dst.base.wbuf) src.base.rbuf,
      ) in
      let few : k ≤ pos_part dst.base.wbuf_len = omega (arith, size, wr.room) in
      let less : take (pos_part dst.base.wbuf_len - k) (drop (o + k) src.base.rbuf)
          ≡ drop k (pending env p src dst) =
        pending_less src dst k o at few in
      let moved : Conn crypto = (on_rest_written env (Output.count k) src c w').2 in
      let left : pending env p src moved ≡ drop k (pending env p src dst) =
        ground (arith, wr.same.base.wbuf, wr.same.base.wbuf_len, at, v.not_negative, few, less) in
      (
        rw wr.same.base.fd (
            step_flow env p (outbox dst.base.fd w) (outbox dst.base.fd w') (pending env p src dst)
              (inbox src.base.fd w) (inbox src.base.fd w') (pending env p src moved) k wr.stream
              left wr.kept),
        ground (arith, v, wr.same.base, plain, plain_src, at, few),
      )
