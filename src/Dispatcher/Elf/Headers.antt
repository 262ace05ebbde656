-- ===== src/Dispatcher/Elf/Headers.antt =====
-- The loop over the program headers of src/dispatcher/format-elf.c.
use hypnoticos.Base.{
  ℕ, zero, suc, ◌+◌, ◌*◌, ◌≤◌, ◌<◌, ◌≡◌, ◌≢◌, ◌⊎◌, inl, inr, refl, ap, sym, ◌∙◌, subst, not, ◌&&◌,
  Bool-cases, ◌==◌, if◌then◌else◌, add64, word, arith, dec_lt, ℕ_discrete, ◌^◌,
}
use hypnoticos.Storage.{bytes_at}
use hypnoticos.Fs.HypnoticFs.{number_of}
use hypnoticos.Dispatcher.Load.{Space, Grant, load_at}
use hypnoticos.Dispatcher.Elf.{
  field, program_header_size, can_read, ElfRun, halts, gave_up, set_up_done, unending, HeaderRound,
  ends, goes_on, after_load, load_segment, load_header, after_headers, load_headers, header_offset,
  header_entry_size, header_count, set_up,
}

HeaderRound-cases :
    (r : HeaderRound) → ((e : ElfRun) × (r ≡ ends e)) ⊎ ((s : Space) × (r ≡ goes_on s))
HeaderRound-cases (ends e) = inl (e, refl)
HeaderRound-cases (goes_on s) = inr (s, refl)

-- A header that the loop goes on behind.
abbrev pub IsLoadable : (ℕ → ℕ) → (size start : ℕ) → Type 0
IsLoadable image size start =
    (add64 start program_header_size < size)
    × (field image start 4 ≡ 1)
    × (field image (add64 start 48) 4 ≡ 0x1000)

load_header_goes_on :
    (grants : ℕ → Grant) (image : ℕ → ℕ) (size start : ℕ) (s s' : Space)
    → load_header grants image size start s ≡ goes_on s'
    → IsLoadable image size start
unfolding load_header can_read
load_header_goes_on grants image size start s s' h =
    elim (dec_lt (add64 start program_header_size) size) [
      | no l ↦ absurd (ground (arith, l, h))
      | yes l ↦ elim (ℕ_discrete (field image (add64 start 48) 4) 0x1000) [
        | no a ↦ absurd (ground (arith, l, a, h))
        | yes a ↦ elim (ℕ_discrete (field image start 4) 1) [
          | no t ↦ absurd (ground (arith, l, a, t, h))
          | yes t ↦ (l, t, a)
        ]
      ]
    ]

after_load-ends : (r : ℕ × Space) (e : ElfRun) → after_load r ≡ ends e → (e ≡ gave_up r.1)
unfolding after_load
after_load-ends r e h = elim (ℕ_discrete r.0 0) [
  | yes z ↦ let k : ends (gave_up r.1) ≡ ends e = ground (arith, z, h) in cc
  | no z ↦ absurd (ground (arith, z, h))
]

-- The end of a round is neither the end of the loop nor without end.
abbrev IsFailure : ElfRun → Type 0
IsFailure halts = Unit
IsFailure (gave_up s) = Unit
IsFailure (set_up_done s) = ⊥
IsFailure unending = ⊥

after_load-IsFailure : (r : ℕ × Space) (e : ElfRun) → after_load r ≡ ends e → IsFailure e
after_load-IsFailure r e h = subst IsFailure (sym (after_load-ends r e h)) tt

halts-IsFailure : (e : ElfRun) → ends halts ≡ ends e → IsFailure e
halts-IsFailure e h = let same : halts ≡ e = cc in subst IsFailure same tt

load_segment-IsFailure :
    (grants : ℕ → Grant) (image : ℕ → ℕ) (size start : ℕ) (s : Space) (e : ElfRun)
    → load_segment grants image size start s ≡ ends e
    → IsFailure e
unfolding load_segment
load_segment-IsFailure grants image size start s e h =
    let offset = field image (add64 start 8) 8 in
    let file_size = field image (add64 start 32) 8 in
    let run = after_load (
      load_at grants s (field image (add64 start 16) 8) (λ n. image (add64 offset n)) file_size
        (field image (add64 start 40) 8)) in
    elim (Bool-cases (not (file_size == 0) && not (can_read size offset file_size))) [
      | inl b ↦ halts-IsFailure e (ground (arith, b, h))
      | inr b ↦
          after_load-IsFailure
            (load_at grants s (field image (add64 start 16) 8) (λ n. image (add64 offset n))
              file_size (field image (add64 start 40) 8))
            e (ap (λ b. if b then ends halts else run) (sym b) ∙ h)
    ]

load_header-IsFailure :
    (grants : ℕ → Grant) (image : ℕ → ℕ) (size start : ℕ) (s : Space) (e : ElfRun)
    → load_header grants image size start s ≡ ends e
    → IsFailure e
unfolding load_header
load_header-IsFailure grants image size start s e h =
    elim (Bool-cases (can_read size start program_header_size)) [
      | inr b ↦ halts-IsFailure e (ground (arith, b, h))
      | inl b ↦ elim (ℕ_discrete (field image (add64 start 48) 4) 0x1000) [
        | no a ↦ halts-IsFailure e (ground (arith, b, a, h))
        | yes a ↦ elim (ℕ_discrete (field image start 4) 1) [
          | no t ↦ halts-IsFailure e (ground (arith, b, a, t, h))
          | yes t ↦ load_segment-IsFailure grants image size start s e (ground (arith, b, a, t, h))
        ]
      ]
    ]

after_headers-ne-unending : (start max : ℕ) (s : Space) → after_headers start max s ≢ unending
unfolding after_headers
after_headers-ne-unending start max s h = elim (ℕ_discrete start max) [
  | yes e ↦ ground (arith, e, h)
  | no n ↦ ground (arith, n, h)
]

mul_more : (a m : ℕ) → a * suc m ≡ a + a * m
mul_more a m = grind arith

-- The next header, of `suc m` that are left.
next_start :
    (start entry_size m max : ℕ)
    → max < word
    → start + entry_size * suc m ≡ max
    → (add64 start entry_size ≡ start + entry_size)
      × (add64 start entry_size + entry_size * m ≡ max)
next_start start entry_size m max l p =
    let d = mul_more entry_size m in (omega (arith, l, p, d), omega (arith, l, p, d))

module _ (grants : ℕ → ℕ → Grant) (image : ℕ → ℕ) (size entry_size max : ℕ)
    (limit : max < word) where
  -- The loop over `m` headers ends.
  load_headers-ne-unending :
      (fuel m start k : ℕ) (s : Space)
      → (max ≤ start) ⊎ (start + entry_size * m ≡ max)
      → m < fuel
      → load_headers fuel grants image size entry_size max start k s ≢ unending
  unfolding load_headers
  load_headers-ne-unending zero m start k s p f h = absurd (omega (arith, f))
  load_headers-ne-unending (suc fuel) zero start k s p f h = elim (dec_lt start max) [
    | no l ↦ after_headers-ne-unending start max s (ground (arith, l, h))
    | yes l ↦ absurd (elim p [ inl q ↦ omega (arith, q, l) | inr q ↦ omega (arith, q, l) ])
  ]
  load_headers-ne-unending (suc fuel) (suc m) start k s p f h = elim (dec_lt start max) [
    | no l ↦ after_headers-ne-unending start max s (ground (arith, l, h))
    | yes l ↦ elim (HeaderRound-cases (load_header (grants k) image size start s)) [
      | inl (e, r) ↦
          let same : e ≡ unending = ground (arith, l, r, h) in
          subst IsFailure same (load_header-IsFailure (grants k) image size start s e r)
      | inr (s', r) ↦ elim p [
        | inl q ↦ absurd (omega (arith, q, l))
        | inr q ↦
            let n = next_start start entry_size m max limit q in
            load_headers-ne-unending fuel m (add64 start entry_size) (k + 1) s' (inr n.1)
              (omega (arith, f)) (ground (arith, l, r, h))
      ]
    ]
  ]

  IsLoadable-from :
      (start entry_size m : ℕ)
      → IsLoadable image size start
      → ((j : ℕ) → j < m → IsLoadable image size ((start + entry_size) + entry_size * j))
      → (j : ℕ) → j < suc m
      → IsLoadable image size (start + entry_size * j)
  IsLoadable-from start entry_size m here rest zero l =
      subst (IsLoadable image size) (omega arith) here
  IsLoadable-from start entry_size m here rest (suc j) l =
      subst (IsLoadable image size) (omega (arith, mul_more entry_size j))
        (rest j (omega (arith, l)))

  load_headers-IsLoadable :
      (fuel m start k : ℕ) (s s' : Space)
      → entry_size ≢ 0
      → start + entry_size * m ≡ max
      → load_headers fuel grants image size entry_size max start k s ≡ set_up_done s'
      → (j : ℕ) → j < m
      → IsLoadable image size (start + entry_size * j)
  unfolding load_headers
  load_headers-IsLoadable zero m start k s s' z p h j l = absurd (cc)
  load_headers-IsLoadable (suc fuel) zero start k s s' z p h j l = absurd (omega (arith, l))
  load_headers-IsLoadable (suc fuel) (suc m) start k s s' z p h j l =
      let n = next_start start entry_size m max limit p in
      let more : start < max = omega (arith, p, mul_more entry_size m, z) in
      elim (HeaderRound-cases (load_header (grants k) image size start s)) [
        | inl (e, r) ↦
            let same : e ≡ set_up_done s' = ground (arith, more, r, h) in
            absurd (subst IsFailure same (load_header-IsFailure (grants k) image size start s e r))
        | inr (t, r) ↦
            let here = load_header_goes_on (grants k) image size start s t r in
            let rest =
              load_headers-IsLoadable fuel m (add64 start entry_size) (k + 1) t s' z n.1
                (ground (arith, more, r, h)) in
            IsLoadable-from start entry_size m here
              (λ j l. subst (λ a. IsLoadable image size (a + entry_size * j)) n.0 (rest j l)) j l
      ]

-- Every byte of the file is below 256.
abbrev pub IsBytes : (ℕ → ℕ) → Type 0
IsBytes image = (n : ℕ) → image n < 256

field_lt : (image : ℕ → ℕ) (at n : ℕ) → IsBytes image → field image at n < 256 ^ n
unfolding field number_of bytes_at
field_lt image at zero b = omega arith
field_lt image at (suc n) b =
    let power : 256 ^ suc n ≡ 256 * 256 ^ n = grind arith in
    omega (arith, b at, field_lt image (add64 at 1) n b, power)

mul_lt : (a b : ℕ) → a < 2 ^ 16 → b < 2 ^ 16 → a * b < 2 ^ 33
mul_lt a b l k = grind (arith, l, k)

-- The loop over the headers ends, for every file of bytes.
pub set_up_ends :
    (grants : ℕ → ℕ → Grant) (image : ℕ → ℕ) (size : ℕ) (s : Space)
    → IsBytes image
    → (set_up grants image size s).1 ≢ unending
unfolding set_up
set_up_ends grants image size s b h =
    let es = header_entry_size image in
    let count = header_count image in
    let product : es * count < 2 ^ 33 =
      mul_lt es count (field_lt image 54 2 b) (field_lt image 56 2 b) in
    let start : header_offset image < word = field_lt image 32 8 b in
    elim (ℕ_discrete (header_offset image) 0) [
      | yes z ↦ ground (arith, z, h)
      | no z ↦
          load_headers-ne-unending grants image size es (add64 (header_offset image) (es * count))
            (omega arith) (suc count) count (header_offset image) 0 s
            (elim (dec_lt (header_offset image + es * count) word) [
              | yes l ↦ inr (omega (arith, l))
              | no l ↦ inl (omega (arith, l, product, start))
            ])
            (omega arith) (ground (arith, z, h))
    ]

-- Where the set-up succeeds, for program headers of a size that is not 0 and that end before the end
-- of the address space: for every one of them, the 64-bit sum of its place and of the 56 bytes of a
-- header is below the size of the file, its type is the one to be loaded, and its alignment is 4096.
pub set_up-IsLoadable :
    (grants : ℕ → ℕ → Grant) (image : ℕ → ℕ) (size : ℕ) (s s' : Space)
    → header_entry_size image ≢ 0
    → header_offset image + header_entry_size image * header_count image < word
    → (set_up grants image size s).1 ≡ set_up_done s'
    → (j : ℕ) → j < header_count image
    → IsLoadable image size (header_offset image + header_entry_size image * j)
unfolding set_up
set_up-IsLoadable grants image size s s' n l h j k =
    let es = header_entry_size image in
    let count = header_count image in
    elim (ℕ_discrete (header_offset image) 0) [
      | yes z ↦ absurd (ground (arith, z, h))
      | no z ↦
          load_headers-IsLoadable grants image size es (add64 (header_offset image) (es * count))
            (omega arith) (suc count) count (header_offset image) 0 s s' n (omega (arith, l))
            (ground (arith, z, h)) j k
    ]
