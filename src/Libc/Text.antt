-- ===== src/Libc/Text.antt =====
-- Strings: libc/string/. A text is the list of its characters, without the NUL behind them.
use hypnoticos.Base.{
  ℕ, zero, suc, ◌≡◌, refl, ◌↔◌, List, [], ◌∷◌, arith, ◌==◌, if◌then◌else◌, length,
}

-- The loop of `strcmp`, over texts of one length.
unfoldable pub differ : List ℕ → List ℕ → ℕ
differ [] bs = 0
differ (a ∷ cs) [] = 0
differ (a ∷ cs) (b ∷ bs) = let rest = differ cs bs in if a == b then rest else 1

-- strcmp: 0 for equal texts, and otherwise 1.
unfoldable pub strcmp : List ℕ → List ℕ → ℕ
strcmp cs bs = if length cs == length bs then differ cs bs else 1

differ_sound : (cs bs : List ℕ) → length cs ≡ length bs → differ cs bs ≡ 0 → cs ≡ bs
unfolding differ
differ_sound [] [] l h = refl
differ_sound [] (b ∷ bs) l h = absurd (omega arith)
differ_sound (a ∷ cs) [] l h = absurd (omega arith)
differ_sound (a ∷ cs) (b ∷ bs) l h = ground (arith, differ_sound cs bs)

differ_self : (cs : List ℕ) → differ cs cs ≡ 0
unfolding differ
differ_self [] = refl
differ_self (a ∷ cs) = ground (arith, differ_self cs)

-- `strcmp` returns 0 exactly for equal texts.
pub strcmp_iff : (cs bs : List ℕ) → (strcmp cs bs ≡ 0) ↔ (cs ≡ bs)
unfolding strcmp
strcmp_iff cs bs = (λ h. ground (arith, differ_sound cs bs), λ e. ground (arith, differ_self cs, e))

-- memcmp of two arrays, which `count` does not leave.
unfoldable pub memcmp : List ℕ → List ℕ → (count : ℕ) → ℕ
memcmp cs bs zero = 0
memcmp [] bs (suc count) = 1
memcmp (a ∷ cs) [] (suc count) = 1
memcmp (a ∷ cs) (b ∷ bs) (suc count) = let rest = memcmp cs bs count in if a == b then rest else 1

pub memcmp_sound :
    (cs bs : List ℕ) (count : ℕ)
    → length cs ≡ count
    → length bs ≡ count
    → memcmp cs bs count ≡ 0
    → cs ≡ bs
unfolding memcmp
memcmp_sound [] [] zero l k h = refl
memcmp_sound [] (b ∷ bs) zero l k h = absurd (omega (arith, k))
memcmp_sound (a ∷ cs) bs zero l k h = absurd (omega (arith, l))
memcmp_sound [] bs (suc count) l k h = absurd (omega (arith, l))
memcmp_sound (a ∷ cs) [] (suc count) l k h = absurd (omega (arith, k))
memcmp_sound (a ∷ cs) (b ∷ bs) (suc count) l k h = ground (arith, memcmp_sound cs bs count)

pub memcmp_self : (cs : List ℕ) (count : ℕ) → length cs ≡ count → memcmp cs cs count ≡ 0
unfolding memcmp
memcmp_self [] zero l = refl
memcmp_self (a ∷ cs) zero l = absurd (omega (arith, l))
memcmp_self [] (suc count) l = absurd (omega (arith, l))
memcmp_self (a ∷ cs) (suc count) l = ground (arith, memcmp_self cs count)
