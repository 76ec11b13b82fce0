-- ===== src/Utils.antt =====
-- `xs_itoa` of src/lib/core/utils.c: the decimal text of an `int`.
pub mod RoundTrip
use xsocks.Base.{ℕ, zero, suc, ◌+◌, ◌/◌, ◌%◌, List, [], ◌∷◌, ◌==◌, if◌then◌else◌}
use xsocks.Base.Int.{ℤ, pos, negsuc}

-- The two loops, `do { *--p = '0' + (i % 10); i /= 10; } while (i != 0);` and its twin for a negative
-- number, whose remainders are not positive: on the absolute value they are the same. The fuel is the
-- number of rounds.
pub itoa_loop : ℕ → ℕ → List ℕ → List ℕ
itoa_loop zero i p = p
itoa_loop (suc fuel) i p =
    let p' = (b'0' + i % 10) ∷ p in
    let rest = itoa_loop fuel (i / 10) p' in if i / 10 == 0 then p' else rest

-- `xs_itoa`; a number has fewer digits than its value, but 0.
pub xs_itoa : ℤ → List ℕ
unfolding itoa_loop
xs_itoa (pos n) = itoa_loop (suc n) n []
xs_itoa (negsuc n) = b'-' ∷ itoa_loop (suc (suc n)) (suc n) []
