-- ===== src/Net.antt =====
-- src/lib/core/net.c: reading and writing a non-blocking socket until it would block.
-- The kernel is not part of the program: `Os` is what the code calls of it, and `Net.Posix` states
-- what the code relies on.
pub mod Posix
pub mod Resolve
pub mod Dest
pub mod Read
pub mod Write
pub mod Progress
pub mod Ideal
pub mod Loopback
pub mod Sockets
mod Tests
use xsocks.Base.{
  ℕ, zero, suc, ◌+◌, ◌-◌, Bool, true, false, not, List, [], ◌∷◌, ◌++◌, Option, length, drop, ltb,
  ◌==◌, if◌then◌else◌,
}

-- What read(2) returns: the bytes (none at the end of the stream), or -1 with `errno`.
pub data SysRead : Type 0 where
  got : List ℕ → SysRead
  failed : ℕ → SysRead

-- What write(2) and sendto(2) return.
pub data SysWrite : Type 0 where
  wrote : ℕ → SysWrite
  failed : ℕ → SysWrite

abbrev pub got_bytes : SysRead → List ℕ
got_bytes (SysRead.got bs) = bs
got_bytes (SysRead.failed e) = []

abbrev pub wrote_count : SysWrite → ℕ
wrote_count (SysWrite.wrote n) = n
wrote_count (SysWrite.failed e) = 0

-- `nread <= 0`
abbrev pub read_breaks : SysRead → Bool
read_breaks (SysRead.got []) = true
read_breaks (SysRead.got (b ∷ bs)) = false
read_breaks (SysRead.failed e) = true

-- `nwrite <= 0`
abbrev pub write_breaks : SysWrite → Bool
write_breaks (SysWrite.wrote n) = n == 0
write_breaks (SysWrite.failed e) = true

-- The system calls on a descriptor. `connect` repeats connect(2) on a socket whose connection is
-- under way: `none` is success, otherwise it is `errno`.
pub record Os : Type 1 where
  pub World : Type 0
  pub read : ℕ → ℕ → World → SysRead × World
  pub write : ℕ → List ℕ → World → SysWrite × World
  pub connect : ℕ → World → Option ℕ × World
  pub close : ℕ → World → World

abbrev pub eagain : ℕ
eagain = 11

abbrev pub eisconn : ℕ
eisconn = 106

abbrev pub ealready : ℕ
ealready = 114

abbrev pub einprogress : ℕ
einprogress = 115

-- What the reading functions return: NET_ERR, or the bytes now in the caller's buffer, whose number
-- is the C result.
pub data Input : Type 0 where
  fail : Input
  bytes : List ℕ → Input

-- What the writing functions return: NET_ERR, or a number of bytes. `crash` is for callers that
-- copy a negative number of bytes.
pub data Output : Type 0 where
  fail : Output
  count : ℕ → Output
  crash : Output

module _ (os : Os) where
  open os use {World, read, write}

  -- The loop of `netTcpRead`: the bytes so far, and what the last call returned (`nread`, at first 0).
  -- The fuel is the number of rounds.
  unfoldable pub read_loop : ℕ → ℕ → ℕ → List ℕ → SysRead → World → List ℕ × SysRead × World
  read_loop zero fd buflen acc nread w = (acc, nread, w)
  read_loop (suc fuel) fd buflen acc nread w =
      let (r, w') = read fd (buflen - length acc) w in
      let rest = read_loop fuel fd buflen (acc ++ got_bytes r) r w' in
      if ltb (length acc) buflen
      then (if read_breaks r then (acc, r, w') else rest)
      else (acc, nread, w)

  -- The end of `netTcpRead`: its result and `*closed`.
  unfoldable pub read_result : List ℕ → SysRead → Input × Bool
  read_result (b ∷ bs) nread = (Input.bytes (b ∷ bs), false)
  read_result [] (SysRead.got []) = (Input.bytes [], true)
  read_result [] (SysRead.got (b ∷ bs)) = (Input.bytes [], false)
  read_result [] (SysRead.failed e) = (if e == eagain then Input.bytes [] else Input.fail, false)

  -- `netTcpRead`. Each round of the loop takes a byte or more, so `buflen` rounds are enough.
  unfoldable pub net_tcp_read : ℕ → ℕ → World → Input × Bool × World
  unfolding read_loop read_result
  net_tcp_read fd buflen w =
      let (acc, nread, w') = read_loop buflen fd buflen [] (SysRead.got []) w in
      let (r, closed) = read_result acc nread in (r, closed, w')

  -- The loop of `netTcpWrite`: the number of bytes written so far and the last `nwrite`.
  unfoldable pub write_loop : ℕ → ℕ → List ℕ → ℕ → SysWrite → World → ℕ × SysWrite × World
  write_loop zero fd buf total nwrite w = (total, nwrite, w)
  write_loop (suc fuel) fd buf total nwrite w =
      let (r, w') = write fd (drop total buf) w in
      let rest = write_loop fuel fd buf (total + wrote_count r) r w' in
      if ltb total (length buf)
      then (if write_breaks r then (total, r, w') else rest)
      else (total, nwrite, w)

  unfoldable pub write_result : ℕ → SysWrite → Output
  write_result (suc n) nwrite = Output.count (suc n)
  write_result zero (SysWrite.wrote n) = Output.count 0
  write_result zero (SysWrite.failed e) = if e == eagain then Output.count 0 else Output.fail

  -- `netTcpWrite`.
  unfoldable pub net_tcp_write : ℕ → List ℕ → World → Output × World
  unfolding write_loop write_result
  net_tcp_write fd buf w =
      let (total, nwrite, w') = write_loop (length buf) fd buf 0 (SysWrite.wrote 0) w in
      (write_result total nwrite, w')
