-- ===== src/Tests/Blocks.antt =====
-- The first memory block of src/memory/new-block.c.
use hypnoticos.Base.{ℕ, false, [], ◌∷◌}
use hypnoticos.Memory.{Memory}
use hypnoticos.Memory.Alloc.{Run, ok, halt, fault, spin}
use hypnoticos.Memory.NewBlock.{Loaded, MmapEntry, memory_new_block, no_label}

-- The kernel lies at the start of the block, and the table behind it.
abbrev loaded : Loaded
loaded = record {
  kernel = record { from = 0x100000; to = 0x101800 };
  multiboot = 0x9000;
  mods = record { from = 0x102000; to = 0x102800 } ∷ [];
  mods_addr = 0x9100;
  mmap_addr = 0x9200;
  mmap_length = 48;
}

abbrev no_memory : Memory
no_memory = record { blocks = []; tables = []; new_table_pending = false }

abbrev memory_of : Run ℕ → Memory
memory_of (ok n m) = m
memory_of halt = no_memory
memory_of fault = no_memory
memory_of spin = no_memory

-- The memory below 2 MB, of which the block is the upper half.
abbrev low_memory : MmapEntry
low_memory = record { addr = 0; len = 0x200000; type = 1 }

abbrev first_memory : Memory
first_memory = memory_of (memory_new_block 1 no_label no_label loaded low_memory no_memory)
