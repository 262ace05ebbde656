-- ===== src/Libc/Number/Digits.antt =====
-- The digits of libc/stdlib/ito.c, read again.
use hypnoticos.Base.{
  ℕ, zero, suc, ◌+◌, ◌-◌, ◌*◌, ◌/◌, ◌%◌, ◌<◌, ◌≡◌, ◌⊎◌, ◌∙◌, ap, true, List, [], ◌∷◌, if◌then◌else◌,
  ltb, arith,
}
use hypnoticos.Libc.Number.{negsuc, base_itoa, base_itoh, digit, put_digits, ito, itoa}

-- The value of a digit, with the letters from 'A' on behind '9'.
unfoldable pub digit_value : ℕ → ℕ
digit_value c = if ltb c b'A' then c - b'0' else c - b'A' + 10

-- The number of a text in a base, from the first digit on.
unfoldable pub number_of_digits : (base value : ℕ) → List ℕ → ℕ
number_of_digits base value [] = value
number_of_digits base value (c ∷ cs) = number_of_digits base (value * base + digit_value c) cs

abbrev IsBase : ℕ → Type 0
IsBase base = (base ≡ base_itoa) ⊎ (base ≡ base_itoh)

-- The numbers of so many digits lie below this.
unfoldable limit : (base places : ℕ) → ℕ
limit base zero = 1
limit base (suc places) = base * limit base places

-- A negative number of one digit gets a character below '0' behind the sign.
itoa_negative : (n : ℕ) → n < 9 → itoa (negsuc n) ≡ b'-' ∷ (b'0' - suc n) ∷ []
unfolding itoa ito put_digits digit
itoa_negative n h =
    let q : suc n / 10 ≡ 0 = omega (arith, h) in
    let r : suc n % 10 ≡ suc n = omega (arith, h) in
    ap (λ d. b'-' ∷ put_digits 19 true 10 d ((b'0' - suc n % 10) ∷ [])) q
    ∙ ap (λ r. b'-' ∷ (b'0' - r) ∷ []) r
