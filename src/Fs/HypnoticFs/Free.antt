-- ===== src/Fs/HypnoticFs/Free.antt =====
-- What `Fs_HypnoticFS_FindSpace` finds.
use hypnoticos.Base.{
  ℕ, suc, ◌+◌, ◌≤◌, ◌<◌, ◌≡◌, ◌≢◌, ◌⊎◌, inl, inr, subst, Option, none, some, word, arith, dec_lt,
}
use hypnoticos.Storage.{Disk}
use hypnoticos.Fs.HypnoticFs.{
  index_start, index_entry_size, type_empty, Index, get_index_size, read_entry, miss, scan_index,
}
use hypnoticos.Fs.HypnoticFs.Listing.{slot}
use hypnoticos.Fs.HypnoticFs.Scan.{EndsEarly, scan_miss}
use hypnoticos.Fs.HypnoticFs.Room.{find_space-some}
use hypnoticos.Fs.HypnoticFs.Space.{clash, used_body, find_space}

-- An address is in the data of no entry.
abbrev pub Outside : Index → ℕ → Type 0
Outside e a = (a < e.offset) ⊎ (e.offset + e.size ≤ a)

module _ (d : Disk) (n : ℕ) (e : Index) (early : EndsEarly (get_index_size d))
    (inside : slot n + index_entry_size < get_index_size d) (entry : read_entry d (slot n) ≡ some e)
    (used : e.type ≢ type_empty) (ends : e.offset + e.size < word) where
  clash-Outside : (a at : ℕ) → clash a at e ≡ none → Outside e a
  unfolding clash
  clash-Outside a at h = elim (dec_lt a e.offset) [
    | yes l ↦ inl l
    | no l ↦ elim (dec_lt a (e.offset + e.size)) [
      | no k ↦ inr (omega (arith, k))
      | yes k ↦ absurd (ground (arith, h, used, l, k, ends))
    ]
  ]

  missed :
      {A : Type 0} (body : ℕ → Index → Option A) → scan_index d body ≡ miss → body (slot n) e ≡ none
  unfolding scan_index
  missed body h =
      let m =
        scan_miss (suc (get_index_size d)) n d (get_index_size d) body index_start early
          (omega (arith, inside)) inside h in
      let same : m.0 ≡ e = cc in subst (λ e. body (slot n) e ≡ none) same m.2

  -- An address that is found, for any size, in an index space that ends 57 bytes before the end of
  -- the address space, is outside the data of every entry in use whose end is a word.
  pub find_space-Outside : (size a : ℕ) → find_space d size ≡ some a → Outside e a
  unfolding used_body
  find_space-Outside size a h = elim (find_space-some d size a early h).1 [
    | inl c ↦ clash-Outside a (slot n) (missed (clash a) c.1)
    | inr f ↦ let m = missed used_body f.1 in absurd (ground (arith, m, used))
  ]
