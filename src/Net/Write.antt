-- ===== src/Net/Write.antt =====
-- `netTcpWrite` adds a prefix of its buffer to the stream that it sends.
use xsocks.Base.{
  ℕ, zero, suc, ◌+◌, ◌-◌, ◌≤◌, ◌≡◌, refl, ap, ◌∙◌, List, [], ◌++◌, append_assoc, length, take, drop,
  take-add, length-drop, drop-add, take_cong, append-nil, arith,
}
use xsocks.Net.{Os, SysWrite, wrote_count, write_loop, write_result, net_tcp_write}
use xsocks.Net.Posix.{Posix, output_count}

module _ (os : Os) (p : Posix os) where
  open os use {World, write}
  open p use {inbox, outbox, write_outbox, write_len, write_inbox}

  -- what the write loop has done when it stops
  record Writes (fd g : ℕ) (buf : List ℕ) (total : ℕ) (w : World) (out : ℕ × SysWrite × World)
      : Type 0 where
    grown : total ≤ out.0
    room : out.0 ≤ length buf
    stream : outbox fd out.2 ≡ outbox fd w ++ take (out.0 - total) (drop total buf)
    kept : inbox g out.2 ≡ inbox g w

  take-zero_of : (xs : List ℕ) {k : ℕ} → k ≡ 0 → take k xs ≡ []
  take-zero_of xs e = rw e

  -- one round writes `k` bytes, and the rounds after it go on behind these
  round_stream :
      (o o' o'' buf : List ℕ) (total k m : ℕ)
      → o' ≡ o ++ take k (drop total buf)
      → o'' ≡ o' ++ take (m - (total + k)) (drop (total + k) buf)
      → total + k ≤ m
      → o'' ≡ o ++ take (m - total) (drop total buf)
  round_stream o o' o'' buf total k m e e' h =
      let split : m - total ≡ k + (m - (total + k)) = omega arith in
      rw
        (
          split,
          take-add k (m - (total + k)) (drop total buf),
          drop-add total k buf,
          ← append_assoc,
          ← e,
        )
        e'

  write_loop-Writes :
      (fuel fd g : ℕ) (buf : List ℕ) (total : ℕ) (nwrite : SysWrite) (w : World)
      → total ≤ length buf
      → Writes fd g buf total w (write_loop os fuel fd buf total nwrite w)
  unfolding write_loop
  write_loop-Writes zero fd g buf total nwrite w h =
      ground (arith, take-zero_of (drop total buf) {k = total - total}, append-nil (outbox fd w))
  write_loop-Writes (suc fuel) fd g buf total nwrite w h =
      let r : SysWrite × World = write fd (drop total buf) w in
      let k : ℕ = wrote_count r.0 in
      let out : ℕ × SysWrite × World = write_loop os fuel fd buf (total + k) r.0 r.1 in
      let ih : Writes fd g buf (total + k) r.1 out =
        write_loop-Writes fuel fd g buf (total + k) r.0 r.1
          (omega (arith, length-drop total buf, write_len fd (drop total buf) w)) in
      ground (
        arith,
        ih,
        take-zero_of (drop total buf) {k = total - total},
        append-nil (outbox fd w),
        take-zero_of (drop total buf) {k = k},
        write_outbox fd (drop total buf) w,
        write_inbox fd g (drop total buf) w,
        round_stream (outbox fd w) (outbox fd r.1) (outbox fd out.2) buf total k out.0,
      )

  write_result-count :
      (total : ℕ) (nwrite : SysWrite) → output_count (write_result os total nwrite) ≡ total
  unfolding write_result
  write_result-count zero (SysWrite.wrote n) = refl
  write_result-count zero (SysWrite.failed e) = ground arith
  write_result-count (suc total) nwrite = refl

  -- Over a kernel whose sockets are byte streams, `netTcpWrite` returns how many of the buffer's
  -- first bytes it added to the stream that it sends, at most all of them; when it fails it added
  -- none. It reads nothing.
  pub net_tcp_write-stream :
      (fd g : ℕ) (buf : List ℕ) (w : World)
      → let (r, w') = net_tcp_write os fd buf w in
        (outbox fd w' ≡ outbox fd w ++ take (output_count r) buf)
        × (output_count r ≤ length buf)
        × (inbox g w' ≡ inbox g w)
  unfolding net_tcp_write
  net_tcp_write-stream fd g buf w =
      let out : ℕ × SysWrite × World = write_loop os (length buf) fd buf 0 (SysWrite.wrote 0) w in
      let l : Writes fd g buf 0 w out =
        write_loop-Writes (length buf) fd g buf 0 (SysWrite.wrote 0) w (omega arith) in
      rw (write_result-count out.0 out.1) (
        l.stream
            ∙ ap (λ t. outbox fd w ++ t) (take_cong buf {m = out.0 - 0} {n = out.0} (omega arith)),
        l.room,
        l.kept,
      )

  -- More rounds than there are bytes left change nothing: any two amounts of fuel that are at least
  -- the number of bytes left run the loop of `netTcpWrite` to the same end.
  pub write_loop-fuel :
      (f g fd : ℕ) (buf : List ℕ) (total : ℕ) (nwrite : SysWrite) (w : World)
      → length buf ≤ f + total
      → length buf ≤ g + total
      → write_loop os f fd buf total nwrite w ≡ write_loop os g fd buf total nwrite w
  unfolding write_loop
  write_loop-fuel zero zero fd buf total nwrite w p q = refl
  write_loop-fuel zero (suc g) fd buf total nwrite w p q = ground arith
  write_loop-fuel (suc f) zero fd buf total nwrite w p q = ground arith
  write_loop-fuel (suc f) (suc g) fd buf total nwrite w p q =
      let r : SysWrite × World = write fd (drop total buf) w in
      ground (arith, write_loop-fuel f g fd buf (total + wrote_count r.0) r.0 r.1)
