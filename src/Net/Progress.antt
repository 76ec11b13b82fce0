-- ===== src/Net/Progress.antt =====
-- `netTcpRead` and `netTcpWrite` of src/lib/core/net.c over a kernel that does not block.
use xsocks.Base.{
  ℕ, ap, ◌∙◌, zero, suc, ◌-◌, ◌≤◌, ◌<◌, ◌≡◌, refl, List, [], ◌∷◌, ◌++◌, length, length-append,
  arith,
}
use xsocks.Net.{
  Os, SysRead, SysWrite, Input, Output, got_bytes, read_loop, read_result, net_tcp_read, write_loop,
  write_result, net_tcp_write,
}
use xsocks.Net.Posix.{Posix}

-- A kernel that does not block: read(2) gives a byte or more while some are to come, and write(2) takes
-- the whole buffer.
pub record Flows (os : Os) (p : Posix os) : Type 0 where
  pub reads :
      (fd n : ℕ) (w : os.World)
      → 0 < n
      → 0 < length (p.inbox fd w)
      → 0 < length (got_bytes (os.read fd n w).0)
  pub writes :
      (fd : ℕ) (bs : List ℕ) (w : os.World) → (os.write fd bs w).0 ≡ SysWrite.wrote (length bs)

cons_of : (xs : List ℕ) → 0 < length xs → (b : ℕ) × (bs : List ℕ) × (xs ≡ b ∷ bs)
cons_of [] h = absurd (omega arith)
cons_of (x ∷ xs) h = (x, xs, refl)

module _ (os : Os) (p : Posix os) (f : Flows os p) where
  open os use {World, read, write}
  open p use {inbox}

  -- the loop keeps what it has
  read_loop-grows :
      (fuel fd n : ℕ) (acc : List ℕ) (nread : SysRead) (w : World)
      → length acc ≤ length (read_loop os fuel fd n acc nread w).0
  unfolding read_loop
  read_loop-grows zero fd n acc nread w = omega arith
  read_loop-grows (suc fuel) fd n acc nread w =
      let r : SysRead × World = read fd (n - length acc) w in
      ground (
        arith,
        read_loop-grows fuel fd n (acc ++ got_bytes r.0) r.0 r.1,
        length-append acc (got_bytes r.0),
      )

  read_result-some :
      (acc : List ℕ) (nread : SysRead)
      → 0 < length acc
      → (read_result os acc nread).0 ≡ Input.bytes acc
  unfolding read_result
  read_result-some [] nread h = absurd (omega arith)
  read_result-some (a ∷ acc) nread h = refl

  got_some :
      (fuel fd n : ℕ) (w : World)
      → 0 < length (got_bytes (read fd n w).0)
      → 0 < n
      → 0 < length (read_loop os (suc fuel) fd n [] (SysRead.got []) w).0
  unfolding read_loop
  got_some fuel fd n w some_ room =
      let r : SysRead × World = read fd n w in
      ground (arith, read_loop-grows fuel fd n (got_bytes r.0) r.0 r.1)

  -- a byte or more is read while some are to come
  pub net_tcp_read-some :
      (fd n : ℕ) (w : World)
      → 0 < n
      → 0 < length (inbox fd w)
      → (b : ℕ) × (bs : List ℕ) × ((net_tcp_read os fd n w).0 ≡ Input.bytes (b ∷ bs))
  unfolding net_tcp_read
  net_tcp_read-some fd zero w room coming = absurd (omega arith)
  net_tcp_read-some fd (suc n) w room coming =
      let out = read_loop os (suc n) fd (suc n) [] (SysRead.got []) w in
      let more : 0 < length out.0 =
        got_some n fd (suc n) w (f.reads fd (suc n) w room coming) room in
      let (b, bs, e) = cons_of out.0 more in
      (b, bs, read_result-some out.0 out.1 more ∙ ap (λ t. Input.bytes t) e)

  write_loop-done :
      (fuel fd : ℕ) (buf : List ℕ) (total : ℕ) (nwrite : SysWrite) (w : World)
      → length buf ≤ total
      → write_loop os fuel fd buf total nwrite w ≡ (total, nwrite, w)
  unfolding write_loop
  write_loop-done zero fd buf total nwrite w h = refl
  write_loop-done (suc fuel) fd buf total nwrite w h = ground (arith, h)

  -- all is written
  pub net_tcp_write-all :
      (fd : ℕ) (buf : List ℕ) (w : World)
      → (net_tcp_write os fd buf w).0 ≡ Output.count (length buf)
  unfolding net_tcp_write write_result write_loop
  net_tcp_write-all fd [] w = refl
  net_tcp_write-all fd (b ∷ bs) w =
      let r = write fd (b ∷ bs) w in
      ground (
        arith,
        f.writes fd (b ∷ bs) w,
        write_loop-done (length bs) fd (b ∷ bs) (length (b ∷ bs)) r.0 r.1,
      )
