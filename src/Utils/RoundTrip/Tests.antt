-- ===== src/Utils/RoundTrip/Tests.antt =====
-- The texts of some numbers: src/lib/core/utils.c.
use xsocks.Base.{◌≡◌, refl, [], ◌∷◌, some}
use xsocks.Base.Int.{pos, negsuc}
use xsocks.Utils.{itoa_loop, xs_itoa}
use xsocks.Utils.RoundTrip.{integer, integer-xs_itoa}

zero_text : xs_itoa (pos 0) ≡ b'0' ∷ []
unfolding xs_itoa itoa_loop
zero_text = refl

port_text : xs_itoa (pos 8388) ≡ b'8' ∷ b'3' ∷ b'8' ∷ b'8' ∷ []
unfolding xs_itoa itoa_loop
port_text = refl

negative_text : xs_itoa (negsuc 119) ≡ b'-' ∷ b'1' ∷ b'2' ∷ b'0' ∷ []
unfolding xs_itoa itoa_loop
negative_text = refl

-- INT_MIN
integer-xs_itoa_example : integer (xs_itoa (negsuc 2147483647)) ≡ some (negsuc 2147483647)
integer-xs_itoa_example = integer-xs_itoa (negsuc 2147483647)
