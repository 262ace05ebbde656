-- ===== src/Tests/Numbers.antt =====
-- Numbers as text of libc/stdlib/ito.c.
use hypnoticos.Base.{◌≡◌, refl, [], ◌∷◌}
use hypnoticos.Libc.Number.{pos, negsuc, digit, put_digits, ito, itoa, itoh}

itoh_48879 : itoh (pos 0xBEEF) ≡ b'B' ∷ b'E' ∷ b'E' ∷ b'F' ∷ []
unfolding itoh ito put_digits digit
itoh_48879 = refl

itoa_1024 : itoa (pos 1024) ≡ b'1' ∷ b'0' ∷ b'2' ∷ b'4' ∷ []
unfolding itoa ito put_digits digit
itoa_1024 = refl

-- The text of -5.
itoa_less_5 : itoa (negsuc 4) ≡ b'-' ∷ b'+' ∷ []
unfolding itoa ito put_digits digit
itoa_less_5 = refl
