-- ===== src/Lib.antt =====
-- Verification of parts of HypnoticOS, a 64-bit operating system in C.
--
-- The kernel keeps a list of memory blocks and tables of allocations (src/memory/), from which
-- every other part takes its memory. Keys come in by an interrupt (src/devices/keyboard.c) and wait
-- in a buffer; a process that reads its standard input is suspended, and the dispatcher tests the
-- suspension until the characters are there (src/function/read.c). Paths are consolidated
-- (src/fs/path.c), and a process locks the paths that it has open
-- (src/dispatcher/open-indices.c). The file system (src/fs/) breaks a path into its parts and hands
-- them to HypnoticFS (src/fs/hypnoticfs/), which keeps its entries and data on a storage device
-- (src/devices/storage/).
--
-- Memory models include/hypnoticos/memory.h; Memory.Find models src/memory/find.c, Memory.Alloc
-- models src/memory/alloc.c and table.c, and Memory.Release the kernel's `free` of
-- libc/stdlib/free.c. Memory.NewBlock models src/memory/new-block.c, with the structures of the boot
-- loader as one record, `Loaded`. The linked lists of blocks and of tables are lists. A run that stops the
-- machine (`HALT`), writes through NULL, or searches without end is a result of its own (`Run`).
-- Calls of C functions are calls of the definitions of the same names: `__malloc_align` is
-- malloc_align, which calls MemoryFindSpace (memory_find_space) and MemoryAllocated (allocated),
-- and this calls MemoryNewTable (memory_new_table), which allocates again. `new_table_pending`
-- bounds this recursion, so that it is written as two levels.
-- Keyboard models the key buffer of src/devices/keyboard.c, Keyboard.Codes the codes of
-- include/hypnoticos/keyboard-codes.h, Keyboard.Scancodes and Keyboard.Irq the interrupt handler;
-- the I/O port is an argument, a function from the number of a read in the interrupt to its byte.
-- Function.Read models the test of a suspended read, with the process's memory as a function from
-- addresses to bytes.
-- Dispatcher.Process models the list of processes, the end of one (src/dispatcher/done.c), the tests
-- of suspensions (src/function/function.c) and src/function/sleep.c; Dispatcher.Schedule models
-- src/dispatcher/dispatcher.c for one processor at a time. What the tests and the end of a process
-- touch outside the list is one record, `World`: memory, keys, the clock and the locked paths.
-- Dispatcher.Addresses models the map of virtual addresses of src/dispatcher/memory.c; whether
-- `MemoryPagingSetPage` sets the page is an argument.
-- Libc.Number models libc/stdlib/ito.c; its NUL behind the array of the digits is left out.
-- Fs.Path models src/fs/path.c, Libc.Text models libc/string/strcmp.c, and
-- Dispatcher.OpenIndices models src/dispatcher/open-indices.c, in which the lock that each function
-- holds makes it one step; whether its calls of `malloc` return memory is an argument.
--
-- Storage models src/devices/storage/: a disk is its size and a function from offsets to bytes, and
-- a read or write that the code refuses is `none`. Fs.HypnoticFs models
-- include/hypnoticos/fs/hypnoticfs.h, with the entries as records and as their 57 bytes on the disk;
-- Fs.HypnoticFs.IndexSpace and Fs.HypnoticFs.Space model src/fs/hypnoticfs/hypnoticfs.c, and
-- Fs.HypnoticFs.Files the operations in the other files there. A `for` loop over the index space is
-- scan_index, with the body as an argument that returns `some` where the code leaves the loop. The
-- stored state is the disk, which every operation takes and those that write return.
-- Fs.Calls models the calls in src/fs/ over the list of roots. Theorems about HypnoticFS stand in
-- the other modules below Fs.HypnoticFs, named for what they show.
-- Dispatcher.Load models the pages of a process and the copies into them in src/dispatcher/memory.c,
-- Dispatcher.Elf models src/dispatcher/format-elf.c, and Dispatcher.New and Dispatcher.Start model
-- src/dispatcher/new.c, which calls all of these and the file system. What `malloc_align` and
-- `MemoryPagingSetPage` give to each call is an argument (`Grant`, `Supply`).
-- Memory.Paging models the page tables of src/memory/paging.c: an entry is absent, a page with its
-- word, or a table of the next level. Each table is made for one entry, so that the table stands in
-- the entry; memory for it is taken to be there.
--
-- Texts are lists of characters without the NUL. Sums of addresses wrap at 2 ^ 64 (Base.Words).
-- The search of a memory block runs on fuel; each round tries a higher address, so that fuel above
-- the size of the block is enough, and 2 ^ 64 is enough for every block. The loop of
-- `DispatcherIndexLockCheck` runs on the length of the list, since its index grows in each round and
-- the list does not.
--
-- The search for a place of the first table runs on one round for each place of the block and one
-- more.
--
-- A scan of the list of processes runs on its length and one more, since each round leaves one place
-- fewer; `DispatcherSetUpNext` runs on 2 scans.
--
-- A loop over the index space runs on the size of that space and one more, since each round is 57
-- bytes further; it comes to its end wherever the space ends 57 bytes before the end of the address
-- space.
--
-- The loop over the program headers runs on their number and one more, and the search for a process
-- ID on the number of IDs, 0xFFFF.
--
-- Not modelled: the hardware (src/cpu/, src/boot/, src/devices/pci.c), the page tables made at the
-- start and the change of flags (the rest of src/memory/paging.c), the other functions of the kernel,
-- the C library of processes but for strcmp, memcmp and the numbers as text, and the programs of the
-- host (hypnoticfs-tools/).
pub mod Base
pub mod Dispatcher
pub mod Fs
pub mod Function
pub mod Keyboard
pub mod Libc
pub mod Memory
pub mod Storage
pub mod Tests
