-- ===== src/Dispatcher/Load/Copies.antt =====
-- What `DispatcherProcessLoadAt` of src/dispatcher/memory.c leaves in memory.
use hypnoticos.Base.{
  ℕ, ◌+◌, ◌-◌, ◌*◌, ◌/◌, ◌%◌, ◌<◌, ◌≡◌, ◌≢◌, ap, ap₂, ne→==, sym, ◌∙◌, subst, List, ◌∷◌,
  if◌then◌else◌, add64, sub64, arith,
}
use hypnoticos.Storage.{bytes_at}
use hypnoticos.Storage.Laws.{Ends, bytes_at-store, length-bytes_at}
use hypnoticos.Dispatcher.Load.{Space, copy, copy_page, copy_pages, copy_file}

-- A copy and a read of the place.
copy_there :
    (bytes : ℕ → ℕ) (to : ℕ) (source : ℕ → ℕ) (from n : ℕ)
    → Ends to n
    → bytes_at (copy bytes to source from n) to n ≡ bytes_at source from n
unfolding copy
copy_there bytes to source from n e =
    let l = length-bytes_at source from n in
    subst (λ k. bytes_at (copy bytes to source from n) to k ≡ bytes_at source from n) l
      (bytes_at-store bytes to (bytes_at source from n) (subst (Ends to) (sym l) e))

-- The bytes that the loop leaves, for the number of its rounds.
copy_file_rounds :
    (va : ℕ) (source : ℕ → ℕ) (file_size count : ℕ) (ptrs : List ℕ) (s : Space)
    → file_size ≢ 0
    → file_size / 4096 + 1 ≡ count
    → (copy_file va source file_size ptrs s).bytes
      ≡ copy_pages count source file_size (va % 4096) count 0 ptrs s.bytes
unfolding copy_file
copy_file_rounds va source file_size count ptrs s n c =
    let rounds : ℕ → ℕ → ℕ = λ k. copy_pages k source file_size (va % 4096) k 0 ptrs s.bytes in
    ap (λ b. (if b then s else record s { bytes = rounds (file_size / 4096 + 1) }).bytes)
      (ne→== file_size 0 n)
    ∙ ap rounds c

-- A file that ends in the page in which it begins: the rest of this page, from its address on, holds
-- the file and what stands behind it.
pub copy_file_first :
    (va : ℕ) (source : ℕ → ℕ) (file_size ptr : ℕ) (ptrs : List ℕ) (s : Space)
    → file_size ≢ 0
    → file_size < 4096
    → Ends ptr 4096
    → bytes_at
        (copy_file va source file_size (ptr ∷ ptrs) s).bytes
        (ptr + va % 4096)
        (4096 - va % 4096)
      ≡ bytes_at source 0 (4096 - va % 4096)
unfolding copy_pages copy_page
copy_file_first va source file_size ptr ptrs s n l e =
    let to : add64 ptr (va % 4096) ≡ ptr + va % 4096 = omega (arith, e) in
    let one = copy_file_rounds va source file_size 1 (ptr ∷ ptrs) s n (omega (arith, l)) in
    let copied = one ∙ ap (λ a. copy s.bytes a source 0 (4096 - va % 4096)) to in
    ap (λ f. bytes_at f (ptr + va % 4096) (4096 - va % 4096)) copied
    ∙ copy_there s.bytes (ptr + va % 4096) source 0 (4096 - va % 4096) (omega (arith, e))

-- Of a file of one page and a part of another, for a page-aligned address, the second page gets the
-- first bytes of the file again, and not those behind the first page. The part is shorter than a page,
-- and the second page ends before the end of the address space.
pub copy_file_second :
    (va : ℕ) (source : ℕ → ℕ) (rest ptr ptr' : ℕ) (ptrs : List ℕ) (s : Space)
    → va % 4096 ≡ 0
    → rest < 4096
    → Ends ptr' 4096
    → bytes_at (copy_file va source (4096 + rest) (ptr ∷ ptr' ∷ ptrs) s).bytes ptr' rest
      ≡ bytes_at source 0 rest
unfolding copy_pages copy_page
copy_file_second va source rest ptr ptr' ptrs s a l e =
    let two =
      copy_file_rounds va source (4096 + rest) 2 (ptr ∷ ptr' ∷ ptrs) s (omega arith)
        (omega (arith, l)) in
    let first : ℕ → ℕ = copy s.bytes (add64 ptr (va % 4096)) source 0 (4096 - va % 4096) in
    let from : sub64 (1 * 4096) (4096 - va % 4096) ≡ 0 = omega (arith, a) in
    let n : (4096 + rest) % 4096 ≡ rest = omega (arith, l) in
    let copied = two ∙ ap₂ (λ f n. copy first ptr' source f n) from n in
    ap (λ f. bytes_at f ptr' rest) copied
    ∙ copy_there first ptr' source 0 rest (omega (arith, e, l))
