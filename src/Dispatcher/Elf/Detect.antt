-- ===== src/Dispatcher/Elf/Detect.antt =====
-- The files that src/dispatcher/format-elf.c accepts.
use hypnoticos.Base.{ℕ, ◌≤◌, ◌<◌, ◌≡◌, ◌↔◌, ◌⊎◌, inl, inr, true, false, arith, dec_lt, Bool-cases}
use hypnoticos.Dispatcher.Elf.{field, detected, is_supported, no_magic, detect}

-- One of the bytes of the magic number.
abbrev pub SomeMagic : (ℕ → ℕ) → Type 0
SomeMagic image =
    (field image 0 1 ≡ 0x7F)
    ⊎ ((field image 1 1 ≡ b'E') ⊎ ((field image 2 1 ≡ b'L') ⊎ (field image 3 1 ≡ b'F')))

-- A 64-bit executable for x86, little endian, of version 1.
abbrev pub IsExecutable : (ℕ → ℕ) → Type 0
IsExecutable image =
    (field image 4 1 ≡ 2)
    × (field image 5 1 ≡ 1)
    × (field image 6 1 ≡ 1)
    × (field image 7 1 ≡ 0)
    × (field image 16 2 ≡ 2)
    × (field image 18 2 ≡ 0x3E)
    × (field image 20 4 ≡ 1)
    × (64 ≤ field image 52 2)

is_supported_iff : (image : ℕ → ℕ) → (is_supported image ≡ true) ↔ IsExecutable image
unfolding is_supported
is_supported_iff image = ground arith

no_magic_iff : (image : ℕ → ℕ) → (no_magic image ≡ false) ↔ SomeMagic image
unfolding no_magic
no_magic_iff image = ground arith

detected_sound :
    (image : ℕ → ℕ) (size : ℕ)
    → (no_magic image ≡ false → SomeMagic image)
    → (is_supported image ≡ true → IsExecutable image)
    → detect image size ≡ detected
    → (64 < size) × SomeMagic image × IsExecutable image
unfolding detect
detected_sound image size m e h = elim (dec_lt 64 size) [
  | no l ↦ absurd (ground (arith, l, h))
  | yes l ↦ elim (Bool-cases (no_magic image)) [
    | inl a ↦ absurd (ground (arith, l, a, h))
    | inr a ↦ elim (Bool-cases (is_supported image)) [
      | inr b ↦ absurd (ground (arith, l, a, b, h))
      | inl b ↦ (l, m a, e b)
    ]
  ]
]

-- A file is accepted exactly if it has more than 64 bytes, its header is the one of an executable for
-- x86, and one of the four bytes of its magic number is right; the others may be any.
pub detect_iff :
    (image : ℕ → ℕ) (size : ℕ)
    → (detect image size ≡ detected) ↔ ((64 < size) × SomeMagic image × IsExecutable image)
unfolding detect
detect_iff image size =
    let m = no_magic_iff image in
    let e = is_supported_iff image in
    (
      detected_sound image size m.0 e.0,
      λ (l, a, b). let x = m.1 a in let y = e.1 b in ground (arith, l, x, y),
    )
