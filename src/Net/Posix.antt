-- ===== src/Net/Posix.antt =====
-- What the relay relies on of the kernel: sockets are byte streams.
use xsocks.Base.{ℕ, ◌≤◌, ◌<◌, ◌≡◌, List, [], ◌++◌, length, take}
use xsocks.Net.{Os, SysRead, got_bytes, wrote_count, Input, Output}

abbrev pub input_bytes : Input → List ℕ
input_bytes Input.fail = []
input_bytes (Input.bytes bs) = bs

abbrev pub output_count : Output → ℕ
output_count Output.fail = 0
output_count (Output.count n) = n
output_count Output.crash = 0

-- `inbox fd w` are the bytes that the peer of `fd` has still to deliver from `w` on, `outbox fd w`
-- those that the kernel has taken for the peer of `fd` so far.
pub record Posix (os : Os) : Type 0 where
  pub inbox : ℕ → os.World → List ℕ
  pub outbox : ℕ → os.World → List ℕ
  -- read(2) delivers the next bytes of the stream, at most as many as asked for,
  pub read_inbox :
      (fd n : ℕ) (w : os.World)
      → inbox fd w ≡ got_bytes (os.read fd n w).0 ++ inbox fd (os.read fd n w).1
  pub read_len : (fd n : ℕ) (w : os.World) → length (got_bytes (os.read fd n w).0) ≤ n
  -- returns 0 bytes of a positive number only at the end of the stream,
  pub read_eof :
      (fd n : ℕ) (w : os.World) → 0 < n → (os.read fd n w).0 ≡ SysRead.got [] → inbox fd w ≡ []
  -- and sends nothing.
  pub read_outbox : (fd n g : ℕ) (w : os.World) → outbox g (os.read fd n w).1 ≡ outbox g w
  -- write(2) takes the first bytes of its buffer, and reads nothing.
  pub write_outbox :
      (fd : ℕ) (bs : List ℕ) (w : os.World)
      → outbox fd (os.write fd bs w).1 ≡ outbox fd w ++ take (wrote_count (os.write fd bs w).0) bs
  pub write_len :
      (fd : ℕ) (bs : List ℕ) (w : os.World) → wrote_count (os.write fd bs w).0 ≤ length bs
  pub write_inbox :
      (fd g : ℕ) (bs : List ℕ) (w : os.World) → inbox g (os.write fd bs w).1 ≡ inbox g w
