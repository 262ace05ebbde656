-- ===== src/Fs/HypnoticFs/Listing.antt =====
-- What `FsList_HypnoticFS` leaves out.
use hypnoticos.Base.{ℕ, ◌+◌, ◌*◌, ◌≡◌, some}
use hypnoticos.Storage.{Disk}
use hypnoticos.Fs.HypnoticFs.{index_start, index_entry_size, type_empty, Index, read_entry}

-- The offset of the entry with a number.
abbrev pub slot : ℕ → ℕ
slot n = index_start + index_entry_size * n

-- An empty entry whose parent is the root.
abbrev pub EmptyAt : Disk → ℕ → Type 0
EmptyAt d at =
    (e : Index) × (read_entry d at ≡ some e) × (e.type ≡ type_empty) × (e.parent_offset ≡ 0)
