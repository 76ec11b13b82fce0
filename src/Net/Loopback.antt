-- ===== src/Net/Loopback.antt =====
-- A small kernel for the tests and examples: descriptor 0 delivers `pending`, at most `burst + 1`
-- bytes a call, and descriptor 1 takes `room` more bytes before it would block; a call that would have
-- blocked finds room for `refill` bytes the next time.
use Prim.Native.Nat.{min}
use xsocks.Base.{
  ℕ, suc, ◌-◌, ◌≤◌, ◌<◌, ◌≡◌, refl, sym, ap, none, List, [], ◌∷◌, ◌++◌, append-nil, length, take,
  drop, arith, ◌==◌, if◌then◌else◌, take-append-drop, length-take,
}
use xsocks.Net.{Os, SysRead, SysWrite, got_bytes, wrote_count, eagain}
use xsocks.Net.Posix.{Posix}

pub record Wire : Type 0 where
  pub pending : List ℕ
  pub burst : ℕ
  pub sent : List ℕ
  pub room : ℕ
  pub refill : ℕ

abbrev pub wire_read : ℕ → ℕ → Wire → SysRead × Wire
wire_read fd n w =
    let k = min n (suc w.burst) in
    if fd == 0
    then (SysRead.got (take k w.pending), record w { pending = drop k w.pending })
    else (SysRead.failed eagain, w)

abbrev pub wire_write : ℕ → List ℕ → Wire → SysWrite × Wire
wire_write fd bs w =
    let k = min w.room (length bs) in
    if fd == 1
    then (if w.room == 0
        then (SysWrite.failed eagain, record w { room = w.refill })
        else (SysWrite.wrote k, record w { sent = w.sent ++ take k bs; room = w.room - k }))
    else (SysWrite.failed eagain, w)

abbrev pub wire : Os
wire = record {
  World = Wire;
  read = wire_read;
  write = wire_write;
  connect = λ fd w. (none, w);
  close = λ fd w. w;
}

abbrev pub wire_inbox : ℕ → Wire → List ℕ
wire_inbox fd w = if fd == 0 then w.pending else []

abbrev pub wire_outbox : ℕ → Wire → List ℕ
wire_outbox fd w = if fd == 1 then w.sent else []

got_none : (n b : ℕ) (xs : List ℕ) → 0 < n → take (min n (suc b)) xs ≡ [] → xs ≡ []
got_none n b [] h e = refl
got_none n b (x ∷ xs) h e =
    let k : min n (suc b) ≡ suc (min n (suc b) - 1) = omega arith in
    absurd (cc (ap (λ j. take j (x ∷ xs)) (sym k)))

pub wire-read_eof :
    (fd n : ℕ) (w : Wire) → 0 < n → (wire_read fd n w).0 ≡ SysRead.got [] → wire_inbox fd w ≡ []
wire-read_eof fd n w pos e = ground (arith, got_none n w.burst w.pending)

pub wire-write_outbox :
    (fd : ℕ) (bs : List ℕ) (w : Wire)
    → wire_outbox fd (wire_write fd bs w).1
      ≡ wire_outbox fd w ++ take (wrote_count (wire_write fd bs w).0) bs
wire-write_outbox fd bs w = ground (arith, append-nil w.sent)

pub wire-read_inbox :
    (fd n : ℕ) (w : Wire)
    → wire_inbox fd w ≡ got_bytes (wire_read fd n w).0 ++ wire_inbox fd (wire_read fd n w).1
wire-read_inbox fd n w = ground (arith, take-append-drop (min n (suc w.burst)) w.pending)

pub wire-read_len : (fd n : ℕ) (w : Wire) → length (got_bytes (wire_read fd n w).0) ≤ n
wire-read_len fd n w = ground (arith, length-take (min n (suc w.burst)) w.pending)

pub wire-read_outbox :
    (fd n g : ℕ) (w : Wire) → wire_outbox g (wire_read fd n w).1 ≡ wire_outbox g w
wire-read_outbox fd n g w = ground arith

pub wire-write_len :
    (fd : ℕ) (bs : List ℕ) (w : Wire) → wrote_count (wire_write fd bs w).0 ≤ length bs
wire-write_len fd bs w = ground arith

pub wire-write_inbox :
    (fd g : ℕ) (bs : List ℕ) (w : Wire) → wire_inbox g (wire_write fd bs w).1 ≡ wire_inbox g w
wire-write_inbox fd g bs w = ground arith

abbrev pub wire_posix : Posix wire
wire_posix = record {
  inbox = wire_inbox;
  outbox = wire_outbox;
  read_inbox = wire-read_inbox;
  read_len = wire-read_len;
  read_eof = wire-read_eof;
  read_outbox = wire-read_outbox;
  write_outbox = wire-write_outbox;
  write_len = wire-write_len;
  write_inbox = wire-write_inbox;
}
