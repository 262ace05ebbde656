-- ===== src/Libc/Number.antt =====
-- Numbers as text: libc/stdlib/ito.c.
pub mod Digits
use hypnoticos.Base.{
  ℕ, zero, suc, ◌+◌, ◌-◌, ◌*◌, ◌/◌, ◌%◌, Bool, true, false, List, [], ◌∷◌, ◌==◌, if◌then◌else◌, ltb,
}

-- int64_t
pub data ℤ : Type 0 where
  pos : ℕ → ℤ
  negsuc : ℕ → ℤ

-- HYPNOTICOS_MAX_DIGITS, BASE_ITOA and BASE_ITOH
abbrev pub max_digits : ℕ
max_digits = 20

abbrev pub base_itoa : ℕ
base_itoa = 10

abbrev pub base_itoh : ℕ
base_itoh = 16

-- The character of a remainder t, or of -t where the number is negative: a remainder below 0 counts
-- down from '0'.
unfoldable pub digit : (negative : Bool) (base t : ℕ) → ℕ
digit true base t = b'0' - t
digit false base t =
    if base == base_itoa then b'0' + t else if ltb t 10 then b'0' + t else b'A' + (t - 10)

-- The loop, which puts the digits in front of those that are there; a round for each place.
unfoldable pub put_digits : (places : ℕ) (negative : Bool) (base m : ℕ) → List ℕ → List ℕ
put_digits zero negative base m cs = cs
put_digits (suc places) negative base zero cs = cs
put_digits (suc places) negative base (suc m) cs =
    put_digits places negative base (suc m / base) (digit negative base (suc m % base) ∷ cs)

-- _ito
unfoldable pub ito : ℤ → (base : ℕ) → List ℕ
ito (pos zero) base = b'0' ∷ []
ito (pos (suc m)) base = put_digits max_digits false base (suc m) []
ito (negsuc m) base = b'-' ∷ put_digits max_digits true base (suc m) []

unfoldable pub itoa : ℤ → List ℕ
itoa i = ito i base_itoa

unfoldable pub itoh : ℤ → List ℕ
itoh i = ito i base_itoh
