-- ===== src/Net/Ideal.antt =====
-- A kernel that does not block, for examples: every descriptor delivers all that the reader has room for,
-- and takes all that it is given.
use xsocks.Base.{
  ℕ, ◌≤◌, ◌<◌, ◌≡◌, refl, ap, none, List, [], ◌∷◌, ◌++◌, length, take, drop, arith, ◌==◌, ==_iff,
  if◌then◌else◌, take-append-drop, length-take, take_all,
}
use xsocks.Net.{Os, SysRead, SysWrite, got_bytes}
use xsocks.Net.Posix.{Posix}
use xsocks.Net.Progress.{Flows}

pub record Sockets : Type 0 where
  pub coming : ℕ → List ℕ
  pub sent : ℕ → List ℕ

abbrev pub ideal : Os
ideal = record {
  World = Sockets;
  read = λ fd n w. (
    SysRead.got (take n (w.coming fd)),
    record w { coming = λ g. if g == fd then drop n (w.coming g) else w.coming g },
  );
  write = λ fd bs w. (
    SysWrite.wrote (length bs),
    record w { sent = λ g. if g == fd then w.sent g ++ bs else w.sent g },
  );
  connect = λ fd w. (none, w);
  close = λ fd w. w;
}

pub ideal-read_inbox :
    (fd n : ℕ) (w : Sockets)
    → w.coming fd ≡ take n (w.coming fd) ++ (if fd == fd then drop n (w.coming fd) else w.coming fd)
ideal-read_inbox fd n w = ground (arith, ==_iff fd fd, take-append-drop n (w.coming fd))

pub length-take_le : (n : ℕ) (xs : List ℕ) → length (take n xs) ≤ n
length-take_le n xs = omega (arith, length-take n xs)

pub take-some : (n : ℕ) (xs : List ℕ) → 0 < n → 0 < length xs → 0 < length (take n xs)
take-some n xs room some_ = omega (arith, length-take n xs)

pub ideal-read_eof :
    (n : ℕ) (xs : List ℕ) → 0 < n → SysRead.got (take n xs) ≡ SysRead.got [] → xs ≡ []
ideal-read_eof n [] h e = refl
ideal-read_eof n (x ∷ xs) h e =
    let none_left : length (take n (x ∷ xs)) ≡ 0 = ap (λ r. length (got_bytes r)) e in
    absurd (omega (arith, none_left, length-take n (x ∷ xs)))

pub ideal-write_outbox :
    (fd : ℕ) (bs : List ℕ) (w : Sockets)
    → (if fd == fd then w.sent fd ++ bs else w.sent fd) ≡ w.sent fd ++ take (length bs) bs
ideal-write_outbox fd bs w = ground (arith, ==_iff fd fd, take_all (length bs) bs)

abbrev pub ideal_posix : Posix ideal
ideal_posix = record {
  inbox = λ fd w. w.coming fd;
  outbox = λ fd w. w.sent fd;
  read_inbox = ideal-read_inbox;
  read_len = λ fd n w. length-take_le n (w.coming fd);
  read_eof = λ fd n w h e. ideal-read_eof n (w.coming fd) h e;
  read_outbox = λ fd n g w. refl;
  write_outbox = ideal-write_outbox;
  write_len = λ fd bs w. omega arith;
  write_inbox = λ fd g bs w. refl;
}

abbrev pub ideal_flows : Flows ideal ideal_posix
ideal_flows = record {
  reads = λ fd n w room coming. take-some n (w.coming fd) room coming;
  writes = λ fd bs w. refl;
}
