-- ===== src/Net/Read.antt =====
-- `netTcpRead` takes the bytes of the stream in order and loses none.
use xsocks.Base.{
  ℕ, zero, suc, ◌+◌, ◌-◌, ◌≤◌, ◌<◌, ◌≡◌, refl, ◌∙◌, true, List, [], ◌∷◌, ◌++◌, append_assoc, length,
  length-append, arith,
}
use xsocks.Net.{Os, SysRead, got_bytes, read_loop, read_result, net_tcp_read}
use xsocks.Net.Posix.{Posix, input_bytes}

module _ (os : Os) (p : Posix os) where
  open os use {World, read, write}
  open p use {inbox, outbox, read_inbox, read_len, read_eof, read_outbox}

  -- what the read loop has done when it stops
  record Reads (fd n g : ℕ) (acc : List ℕ) (w : World) (out : List ℕ × SysRead × World)
      : Type 0 where
    stream : acc ++ inbox fd w ≡ out.0 ++ inbox fd out.2
    room : length out.0 ≤ n
    sent : outbox g out.2 ≡ outbox g w

  read_loop-Reads :
      (fuel fd n g : ℕ) (acc : List ℕ) (nread : SysRead) (w : World)
      → length acc ≤ n
      → Reads fd n g acc w (read_loop os fuel fd n acc nread w)
  unfolding read_loop
  read_loop-Reads zero fd n g acc nread w h = record { stream = refl; room = h; sent = refl }
  read_loop-Reads (suc fuel) fd n g acc nread w h =
      let r : SysRead × World = read fd (n - length acc) w in
      let ih : Reads fd n g (acc ++ got_bytes r.0) r.1
          (read_loop os fuel fd n (acc ++ got_bytes r.0) r.0 r.1) =
        read_loop-Reads fuel fd n g (acc ++ got_bytes r.0) r.0 r.1
          (omega (arith, length-append acc (got_bytes r.0), read_len fd (n - length acc) w)) in
      ground (
        arith,
        ih,
        ih.stream,
        append_assoc acc (got_bytes r.0) (inbox fd r.1),
        read_inbox fd (n - length acc) w,
        read_outbox fd (n - length acc) g w,
      )

  read_result-bytes :
      (acc : List ℕ) (nread : SysRead) → input_bytes (read_result os acc nread).0 ≡ acc
  unfolding read_result
  read_result-bytes [] (SysRead.got []) = refl
  read_result-bytes [] (SysRead.got (b ∷ bs)) = refl
  read_result-bytes [] (SysRead.failed e) = ground arith
  read_result-bytes (a ∷ acc) nread = refl

  -- Over a kernel whose sockets are byte streams, `netTcpRead` hands over the next bytes of the
  -- stream, no more than the buffer holds: what it returns and what is still to come are what was
  -- to come before, also when it fails (then no byte is taken). It sends nothing.
  pub net_tcp_read-stream :
      (fd n g : ℕ) (w : World)
      → let (r, closed, w') = net_tcp_read os fd n w in
        (inbox fd w ≡ input_bytes r ++ inbox fd w')
        × (length (input_bytes r) ≤ n)
        × (outbox g w' ≡ outbox g w)
  unfolding net_tcp_read
  net_tcp_read-stream fd n g w =
      let out : List ℕ × SysRead × World = read_loop os n fd n [] (SysRead.got []) w in
      let l : Reads fd n g [] w out =
        read_loop-Reads n fd n g [] (SysRead.got []) w (omega arith) in
      ground (arith, l, l.stream, read_result-bytes out.0 out.1)

  -- With enough fuel, 0 bytes from the kernel at the end of the loop mean the end of the stream.
  read_loop_eof :
      (fuel fd n : ℕ) (acc : List ℕ) (nread : SysRead) (w : World)
      → n ≤ fuel + length acc
      → let out = read_loop os fuel fd n acc nread w in
        length out.0 < n → out.1 ≡ SysRead.got [] → inbox fd out.2 ≡ []
  unfolding read_loop
  read_loop_eof zero fd n acc nread w f h e = absurd (omega arith)
  read_loop_eof (suc fuel) fd n acc nread w f h e =
      let r : SysRead × World = read fd (n - length acc) w in
      ground (
        arith,
        read_loop_eof fuel fd n (acc ++ got_bytes r.0) r.0 r.1,
        length-append acc (got_bytes r.0),
        read_eof fd (n - length acc) w,
        read_inbox fd (n - length acc) w,
      )

  read_result-closed :
      (acc : List ℕ) (nread : SysRead)
      → (read_result os acc nread).1 ≡ true
      → (acc ≡ []) × (nread ≡ SysRead.got [])
  unfolding read_result
  read_result-closed [] (SysRead.got []) h = (refl, refl)
  read_result-closed [] (SysRead.got (b ∷ bs)) h = cc
  read_result-closed [] (SysRead.failed e) h = cc
  read_result-closed (a ∷ acc) nread h = cc

  -- Over a kernel whose sockets are byte streams, `netTcpRead` with room in the buffer sets
  -- `*closed` only at the end of the peer's stream: no byte is returned and none is still to come.
  pub net_tcp_read-closed :
      (fd n : ℕ) (w : World)
      → 0 < n
      → let (r, closed, w') = net_tcp_read os fd n w in
        closed ≡ true → (input_bytes r ≡ []) × (inbox fd w' ≡ [])
  unfolding net_tcp_read
  net_tcp_read-closed fd n w pos h =
      let out : List ℕ × SysRead × World = read_loop os n fd n [] (SysRead.got []) w in
      let e : (out.0 ≡ []) × (out.1 ≡ SysRead.got []) = read_result-closed out.0 out.1 h in
      (
        read_result-bytes out.0 out.1 ∙ e.0,
        read_loop_eof n fd n [] (SysRead.got []) w (omega arith) (rw e.0 pos) e.1,
      )

  -- More rounds than there is room for bytes change nothing: any two amounts of fuel that are at
  -- least the room left run the loop of `netTcpRead` to the same end.
  pub read_loop-fuel :
      (f g fd n : ℕ) (acc : List ℕ) (nread : SysRead) (w : World)
      → n ≤ f + length acc
      → n ≤ g + length acc
      → read_loop os f fd n acc nread w ≡ read_loop os g fd n acc nread w
  unfolding read_loop
  read_loop-fuel zero zero fd n acc nread w p q = refl
  read_loop-fuel zero (suc g) fd n acc nread w p q = ground arith
  read_loop-fuel (suc f) zero fd n acc nread w p q = ground arith
  read_loop-fuel (suc f) (suc g) fd n acc nread w p q =
      let r : SysRead × World = read fd (n - length acc) w in
      ground (
        arith,
        read_loop-fuel f g fd n (acc ++ got_bytes r.0) r.0 r.1,
        length-append acc (got_bytes r.0),
      )
