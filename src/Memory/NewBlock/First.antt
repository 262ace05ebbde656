-- ===== src/Memory/NewBlock/First.antt =====
-- The first table of src/memory/new-block.c.
use hypnoticos.Base.{ℕ, ◌+◌, ◌-◌, ◌≤◌, ◌<◌, ◌≡◌, ◌⊎◌, some, All, word, arith}
use hypnoticos.Memory.{Memory}
use hypnoticos.Memory.NewBlock.{
  Range, Loaded, MmapEntry, memory_floor, initial_size, multiboot_range, mods_range, mmap_range,
  clip,
}

-- The table at an address ends before the end of the address space, and shares no byte with a range.
abbrev pub IsClear : ℕ → Range → Type 0
IsClear addr r = (r.to < addr) ⊎ (addr + initial_size < r.from)

-- It shares no byte with the kernel, the modules and what the loader left.
abbrev pub IsPlace : Loaded → ℕ → Type 0
IsPlace l addr =
    IsClear addr l.kernel
    × All (IsClear addr) l.mods
    × IsClear addr (multiboot_range l)
    × IsClear addr (mods_range l)
    × IsClear addr (mmap_range l)

-- The block that the code makes of an entry of the memory map: the whole entry where it begins above
-- 1 MB. Where it begins at 1 MB or below and ends above, the block begins at 1 MB and is 1 MB shorter
-- than the entry, wherever this begins.
abbrev pub IsPart : MmapEntry → (start size : ℕ) → Type 0
IsPart e start size =
    ((memory_floor < e.addr) × (start ≡ e.addr) × (size ≡ e.len))
    ⊎ ((e.addr ≤ memory_floor)
        × (memory_floor < e.addr + e.len)
        × (e.addr + e.len < word)
        × (start ≡ memory_floor)
        × (size + memory_floor ≡ e.len))

-- An entry of the memory map that begins at 1 MB or below, ends behind 1 MB, and is shorter than
-- 1 MB: its length wraps to almost the whole address space, since the code takes all of 1 MB from it
-- and not only the part below.
clip_wraps :
    (e : MmapEntry)
    → e.addr ≤ memory_floor
    → memory_floor < e.addr + e.len
    → e.len < memory_floor
    → clip e ≡ some (memory_floor, e.len + word - memory_floor)
unfolding clip
clip_wraps e a b c = ground (arith, a, b, c)
