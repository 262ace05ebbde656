-- ===== src/Fs/HypnoticFs/Room.antt =====
-- The results of `Fs_HypnoticFS_FindSpace`.
use hypnoticos.Base.{
  ℕ, suc, ◌≤◌, ◌<◌, ◌≡◌, ◌⊎◌, inl, inr, refl, ap, subst, zero, Option, none, some, add64, sub64,
  word, arith, Bool, true, false, ltb, if◌then◌else◌, dec_lt,
}
use hypnoticos.Storage.{Disk, storage_get_max}
use hypnoticos.Fs.HypnoticFs.{
  index_start, Index, get_index_size, ScanResult, hit, miss, read_error, unending, scan_index,
}
use hypnoticos.Fs.HypnoticFs.Scan.{EndsEarly, scan-Found}
use hypnoticos.Fs.HypnoticFs.Space.{
  clash, Check, at_address, fails, goes_on, check_of, check_address, or_check, check_before,
  check_after, settle_check, space_body, used_body, after_passes, space_of, nonzero_offset,
  find_space,
}

-- An address is a word, and no entry clashes with it.
abbrev pub IsClear : Disk → ℕ → Type 0
IsClear d a = (a < word) × (scan_index d (clash a) ≡ miss)

-- A check returns only such addresses.
Returns : Disk → Check → Type 0
Returns d (at_address a) = IsClear d a
Returns d fails = Unit
Returns d goes_on = Unit

check_of-Returns :
    (d : Disk) (a : ℕ) (r : ScanResult (Unit {0}))
    → scan_index d (clash a) ≡ r
    → a < word
    → Returns d (check_of a r)
unfolding check_of Returns
check_of-Returns d a (hit u) h l = tt
check_of-Returns d a miss h l = (l, h)
check_of-Returns d a read_error h l = tt
check_of-Returns d a unending h l = tt

if_Returns :
    (d : Disk) (b : Bool) (c c' : Check)
    → Returns d c
    → Returns d c'
    → Returns d (if b then c else c')
if_Returns d true c c' h h' = h
if_Returns d false c c' h h' = h'

or_check-Returns :
    (d : Disk) (c c' : Check) → Returns d c → Returns d c' → Returns d (or_check c c')
unfolding or_check Returns
or_check-Returns d (at_address a) c' h h' = h
or_check-Returns d fails c' h h' = tt
or_check-Returns d goes_on c' h h' = h'

check_around-Returns :
    (d : Disk) (size : ℕ) (e : Index)
    → Returns d (or_check (check_before d size e) (check_after d size e))
unfolding check_before check_after check_address Returns
check_around-Returns d size e =
    let before = sub64 e.offset size in
    let after = add64 (add64 e.offset e.size) size in
    or_check-Returns d (check_before d size e) (check_after d size e)
      (if_Returns d (ltb size (sub64 e.offset (get_index_size d))) (check_address d before) goes_on
        (check_of-Returns d before (scan_index d (clash before)) refl (omega arith)) tt)
      (if_Returns d (ltb after (storage_get_max d)) (check_address d after) goes_on
        (check_of-Returns d after (scan_index d (clash after)) refl (omega arith)) tt)

settle_check-IsClear :
    (d : Disk) (c : Check) (a : ℕ) → Returns d c → settle_check c ≡ some (some a) → IsClear d a
unfolding settle_check Returns
settle_check-IsClear d (at_address b) a l h = let same : b ≡ a = cc in subst (IsClear d) same l
settle_check-IsClear d fails a l h = absurd (cc)
settle_check-IsClear d goes_on a l h = absurd (cc)

space_body-IsClear :
    (d : Disk) (size at : ℕ) (e : Index) (a : ℕ)
    → space_body d size at e ≡ some (some a)
    → IsClear d a
unfolding space_body
space_body-IsClear d size at e a h =
    let c = or_check (check_before d size e) (check_after d size e) in
    settle_check-IsClear d c a (check_around-Returns d size e) (ground (arith, h))

-- No entry is in use, and the address is the one behind the index space.
abbrev pub IsFirst : Disk → ℕ → Type 0
IsFirst d a = (a ≡ get_index_size d) × (scan_index d used_body ≡ miss)

after_passes-IsFirst :
    (d : Disk) (size : ℕ) (r : ScanResult (Unit {0})) (a : ℕ)
    → scan_index d used_body ≡ r
    → after_passes d size r ≡ some a
    → IsFirst d a
unfolding after_passes
after_passes-IsFirst d size miss a s h = (ground (arith, h), s)
after_passes-IsFirst d size (hit u) a s h = absurd (cc)
after_passes-IsFirst d size read_error a s h = absurd (cc)
after_passes-IsFirst d size unending a s h = absurd (cc)

space_of-some :
    (d : Disk) (size : ℕ) (r : ScanResult (Option ℕ)) (a : ℕ)
    → ((a : ℕ) → r ≡ hit (some a) → IsClear d a)
    → space_of d size r ≡ some a
    → IsClear d a ⊎ IsFirst d a
unfolding space_of
space_of-some d size (hit r) a k h = inl (k a (ap hit h))
space_of-some d size miss a k h =
    inr (after_passes-IsFirst d size (scan_index d used_body) a refl h)
space_of-some d size read_error a k h = absurd (cc)
space_of-some d size unending a k h = absurd (cc)

nonzero_offset-some : (o : Option ℕ) (a : ℕ) → nonzero_offset o ≡ some a → o ≡ some a
unfolding nonzero_offset
nonzero_offset-some none a h = cc
nonzero_offset-some (some zero) a h = cc
nonzero_offset-some (some (suc b)) a h = h

-- An address that is found.
pub find_space-some :
    (d : Disk) (size a : ℕ)
    → EndsEarly (get_index_size d)
    → find_space d size ≡ some a
    → (index_start ≤ get_index_size d) × (IsClear d a ⊎ IsFirst d a)
unfolding find_space scan_index
find_space-some d size a w h = elim (dec_lt (get_index_size d) index_start) [
  | yes l ↦ absurd (ground (arith, l, h))
  | no l ↦
      let o = space_of d size (scan_index d (space_body d size)) in
      let f : nonzero_offset o ≡ some a = ground (arith, l, h) in
      let r = nonzero_offset-some o a f in
      let clear : (a : ℕ) → scan_index d (space_body d size) ≡ hit (some a) → IsClear d a = λ a s.
        let f =
          scan-Found (suc (get_index_size d)) d (get_index_size d) (space_body d size) index_start
            (some a) w (omega (arith, l)) s in
        space_body-IsClear d size f.0 f.1 a f.5 in
      (omega (arith, l), space_of-some d size (scan_index d (space_body d size)) a clear r)
]

pub find_space_lt :
    (d : Disk) (size a : ℕ) → EndsEarly (get_index_size d) → find_space d size ≡ some a → a < word
find_space_lt d size a w h = elim (find_space-some d size a w h).1 [
  | inl c ↦ c.0
  | inr f ↦ omega (arith, f.0, w)
]
