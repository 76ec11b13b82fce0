-- ===== src/Net/Sockets/Table.antt =====
-- A kernel with a table of the open descriptors, for examples: an instance of the laws of `Descriptors`.
use xsocks.Base.{
  ℕ, suc, ◌≡◌, refl, Bool, true, false, ◌||◌, List, [], ◌∷◌, Option, none, some, ◌==◌,
  if◌then◌else◌, arith,
}
use xsocks.Net.{einprogress}
use xsocks.Net.Resolve.{Info}
use xsocks.Net.Sockets.{Sockets}
use xsocks.Net.Sockets.Descriptors.{Descriptors}

abbrev member : ℕ → List ℕ → Bool
member g [] = false
member g (x ∷ xs) = g == x || member g xs

abbrev remove : ℕ → List ℕ → List ℕ
remove g [] = []
remove g (x ∷ xs) = if x == g then remove g xs else x ∷ remove g xs

pub member-remove :
    (fd g : ℕ) (xs : List ℕ) → member g (remove fd xs) ≡ (if g == fd then false else member g xs)
member-remove fd g [] = ground arith
member-remove fd g (x ∷ xs) = ground (arith, member-remove fd g xs)

-- the descriptor that the next socket gets, and the open ones
pub record Table : Type 0 where
  pub next : ℕ
  pub opened : List ℕ

abbrev open_socket : Info → Table → Option ℕ × Table
open_socket p t =
    if member t.next t.opened
    then (none, t)
    else (some t.next, record { next = suc t.next; opened = t.next ∷ t.opened })

-- descriptor 4 is refused (ECONNREFUSED); `binds` says whether bind(2) succeeds
abbrev pub table : Bool → Sockets
table binds = record {
  World = Table;
  socket = open_socket;
  reuse_addr = λ fd t. (true, t);
  non_block = λ fd t. (true, t);
  v6_only = λ fd t. (true, t);
  bind = λ fd p t. (binds, t);
  connect = λ fd p t. (some (if fd == 4 then 111 else einprogress), t);
  close = λ fd t. record t { opened = remove fd t.opened };
}

pub socket_new :
    (p : Info) (t : Table) (fd : ℕ)
    → (open_socket p t).0 ≡ some fd
    → (member fd t.opened ≡ false)
      × ((g : ℕ)
          → member g (open_socket p t).1.opened ≡ (if g == fd then true else member g t.opened))
socket_new p t fd e = (ground (arith, e), λ g. ground (arith, e))

pub socket_fails :
    (p : Info) (t : Table) (g : ℕ)
    → (open_socket p t).0 ≡ none
    → member g (open_socket p t).1.opened ≡ member g t.opened
socket_fails p t g e = ground (arith, e)

abbrev pub laws : (binds : Bool) → Descriptors (table binds)
laws binds = record {
  is_open = λ g t. member g t.opened;
  socket_new = socket_new;
  socket_fails = socket_fails;
  close_ends = λ fd g t. member-remove fd g t.opened;
  reuse_addr_open = λ fd g t. refl;
  non_block_open = λ fd g t. refl;
  v6_only_open = λ fd g t. refl;
  bind_open = λ fd g p t. refl;
  connect_open = λ fd g p t. refl;
}

abbrev pub two : List Info
two = record { v6 = true; addr = 1 ∷ [] } ∷ record { v6 = false; addr = 2 ∷ [] } ∷ []

abbrev pub start : Table
start = record { next = 4; opened = 0 ∷ 1 ∷ [] }
