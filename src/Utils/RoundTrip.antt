-- ===== src/Utils/RoundTrip.antt =====
-- The text that `xs_itoa` of src/lib/core/utils.c makes is read back as the number.
mod Tests
use xsocks.Base.{
  ℕ, zero, suc, ◌+◌, ◌-◌, ◌*◌, ◌/◌, ◌%◌, ◌^◌, ◌≤◌, ◌<◌, ◌≡◌, refl, ap, ◌∙◌, Bool, true, false, ◌&&◌,
  List, [], ◌∷◌, Option, none, some, length, drop, arith, ltb, leb, ◌==◌, if◌then◌else◌, Bool-cases,
  inl, inr,
}
use xsocks.Base.Int.{ℤ, pos, negsuc}
use xsocks.Utils.{itoa_loop, xs_itoa}

-- A reference for reading a decimal number: `none` for a text that has anything but digits.
unfoldable pub number : ℕ → List ℕ → Option ℕ
number n [] = some n
number n (c ∷ cs) = if leb b'0' c && leb c b'9' then number (n * 10 + (c - b'0')) cs else none

abbrev negate : Option ℕ → Option ℤ
negate none = none
negate (some zero) = some (pos 0)
negate (some (suc n)) = some (negsuc n)

abbrev positive : Option ℕ → Option ℤ
positive none = none
positive (some n) = some (pos n)

abbrev is_minus : List ℕ → Bool
is_minus [] = false
is_minus (c ∷ cs) = c == b'-'

-- with a sign in front, or not; as for atoi, no digits are 0
pub integer : List ℕ → Option ℤ
unfolding number
integer cs = if is_minus cs then negate (number 0 (drop 1 cs)) else positive (number 0 cs)

number-digit : (n d : ℕ) (p : List ℕ) → d < 10 → number n ((b'0' + d) ∷ p) ≡ number (n * 10 + d) p
unfolding number
number-digit n d p h =
    let same : number (n * 10 + (b'0' + d - b'0')) p ≡ number (n * 10 + d) p =
      ap (λ k. number k p) (omega arith) in
    ground (arith, same)

-- the digits of `i` in front of `p`, read after the digits of no number
number-itoa_loop : (fuel i : ℕ) (p : List ℕ) → i < fuel → number 0 (itoa_loop fuel i p) ≡ number i p
unfolding itoa_loop
number-itoa_loop zero i p h = absurd (omega arith)
number-itoa_loop (suc fuel) i p h =
    let p' = (b'0' + i % 10) ∷ p in
    let ih = number-itoa_loop fuel (i / 10) p' in
    let whole : i / 10 * 10 + i % 10 ≡ i = omega arith in
    let next : number (i / 10) p' ≡ number i p =
      number-digit (i / 10) (i % 10) p (omega arith) ∙ ap (λ k. number k p) whole in
    ground (arith, ih, next)

number-no_minus : (cs : List ℕ) (n : ℕ) → number 0 cs ≡ some n → is_minus cs ≡ false
unfolding number
number-no_minus [] n e = refl
number-no_minus (c ∷ cs) n e = ground (arith, e)

-- The text that `xs_itoa` makes of any `int` is a decimal number that reads back as that `int`: with a
-- minus sign in front if it is negative, also for the least one.
pub integer-xs_itoa : (z : ℤ) → integer (xs_itoa z) ≡ some z
unfolding integer xs_itoa
integer-xs_itoa (pos n) =
    let e : number 0 (itoa_loop (suc n) n []) ≡ some n =
      number-itoa_loop (suc n) n [] (omega arith) in
    ground (arith, e, number-no_minus (itoa_loop (suc n) n []) n e)
integer-xs_itoa (negsuc n) =
    let e : number 0 (itoa_loop (suc (suc n)) (suc n) []) ≡ some (suc n) =
      number-itoa_loop (suc (suc n)) (suc n) [] (omega arith) in
    ground (arith, e)
