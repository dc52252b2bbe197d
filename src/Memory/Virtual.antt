-- ===== src/Memory/Virtual.antt =====
-- sys/memory/vmemory.c on the kernel's directory. Memory is the words of its frames, the pages of
-- physical memory. The directory and the page tables are reached by their frames; that the addresses
-- which the code uses for them lead there is in Virtual/SelfMap.
pub mod Scan
pub mod Search
pub mod Overcount
pub mod Mapping
pub mod SelfMap
pub mod Spaces
use firedrake.Common.{
  ℕ, zero, suc, ◌+◌, ◌-◌, ◌*◌, ◌/◌, ◌%◌, ◌^◌, Bool, true, false, Option, none, some, ltb, leb, not,
  ◌&&◌, ◌||◌, ◌==◌, if◌then◌else◌, add32, mul32,
}
use firedrake.Memory.Physical.{Physical, page_size}
use firedrake.Memory.Physical as Pages

-- `VM_DIRECTORY_LENGTH` and `VM_PAGETABLE_LENGTH`
abbrev pub table_length : ℕ
table_length = 1024

-- `VM_LOWER_LIMIT`
abbrev pub lower_bound : ℕ
lower_bound = 4096

-- `VM_UPPER_LIMIT`
abbrev pub upper_bound : ℕ
upper_bound = 0xFFFFF000

-- the frame of `VM_KERNEL_DIRECTORY_ADDRESS`
abbrev pub kernel_directory : ℕ
kernel_directory = 1

-- `VM_FLAGS_KERNEL`
abbrev pub flags_kernel : ℕ
flags_kernel = 3

-- `VM_FLAGS_USERLAND`
abbrev pub flags_userland : ℕ
flags_userland = 7

-- the words of the frames, the state of the physical allocator, and whether `__vm_spinlock` is held
pub record Machine : Type 0 where
  pub words : ℕ → ℕ → ℕ
  pub physical : Physical
  pub locked : Bool

-- `entry & VM_PAGETABLEFLAG_PRESENT`
abbrev pub is_present : ℕ → Bool
is_present e = e % 2 == 1

-- `entry & ~0xFFF`, as a frame
abbrev pub frame_of : ℕ → ℕ
frame_of e = e / page_size

-- `table[i] = w`, the table in the frame `f`
pub write_word : (ℕ → ℕ → ℕ) → (f i w : ℕ) → ℕ → ℕ → ℕ
write_word words f i w f' i' = if f' == f && i' == i then w else words f' i'

-- `memset` of the first `n` words of the frame `f` to 0
pub clear_words : (ℕ → ℕ → ℕ) → (f n : ℕ) → ℕ → ℕ → ℕ
clear_words words f n f' i' = if f' == f && ltb i' n then 0 else words f' i'

-- the page table of the entry `i` of a directory, if it is present
pub table_at : Machine → (directory i : ℕ) → Option (ℕ → ℕ)
table_at m directory i =
    let e = m.words directory i in if is_present e then some (m.words (frame_of e)) else none

-- `(pageTableIndex << VM_DIRECTORY_SHIFT) + (pageIndex << VM_PAGE_SHIFT)`
abbrev pub address_of : (i j : ℕ) → ℕ
address_of i j = add32 (mul32 i (2 ^ 22)) (mul32 j page_size)

-- `if(foundPages == 0) regionStart = ...`
abbrev pub region_start : (found start here : ℕ) → ℕ
region_start found start here = if found == 0 then here else start

-- The loop over a page table, of the directory's entry `i`, from the index `j` on: the pages found in
-- a row, and the first of them.
pub scan_table : ℕ → (table : ℕ → ℕ) → (pages i j found start : ℕ) → ℕ × ℕ
scan_table zero table pages i j found start = (found, start)
scan_table (suc rounds) table pages i j found start =
    let start' = region_start found start (address_of i j) in
    let found' = add32 found 1 in
    let free = scan_table rounds table pages i (j + 1) found' start' in
    let used = scan_table rounds table pages i (j + 1) 0 start in
    if not (is_present (table j)) then if leb pages found' then (found', start') else free else used

-- a round of the loop over a directory: its entry `i`
pub scan_entry : Option (ℕ → ℕ) → (pages i j found start : ℕ) → ℕ × ℕ
scan_entry (some table) pages i j found start =
    scan_table (table_length - j) table pages i j found start
scan_entry none pages i j found start =
    (add32 found table_length, region_start found start (address_of i j))

-- the loop over a directory, given by its tables
pub scan_directory : ℕ → (tables : ℕ → Option (ℕ → ℕ)) → (pages upper i j found start : ℕ) → ℕ × ℕ
scan_directory zero tables pages upper i j found start = (found, start)
scan_directory (suc rounds) tables pages upper i j found start =
    let next = scan_entry (tables i) pages i j found start in
    let rest = scan_directory rounds tables pages upper (i + 1) 0 next.0 next.1 in
    if ltb found pages && ltb (mul32 i (2 ^ 22)) upper
    then if leb table_length i then (0, start) else rest
    else (found, start)

-- the assertions on the arguments of the searches
pub limits_hold : (pages lower upper : ℕ) → Bool
limits_hold pages lower upper =
    ltb 0 pages
    && leb lower_bound lower
    && leb upper upper_bound
    && lower % page_size == 0
    && upper % page_size == 0

-- what a search returns
pub outcome : (pages upper : ℕ) → ℕ × ℕ → ℕ
outcome pages upper (found, start) =
    if leb pages found && leb (add32 start (mul32 pages page_size)) upper then start else 0

-- `__vm_findFreePages__kernel` on a directory given by its tables: the address of the first page, or
-- 0. `none` is a failed assertion. The index of the directory rises in each round and stops the loop
-- at the directory's length, so that the rounds are enough.
pub find_free_pages : (tables : ℕ → Option (ℕ → ℕ)) → (pages lower upper : ℕ) → Option ℕ
find_free_pages tables pages lower upper =
    let i = lower / 2 ^ 22 in
    let j = lower / page_size % table_length in
    if limits_hold pages lower upper
    then some
        (outcome pages upper (scan_directory (suc table_length - i) tables pages upper i j 0 0))
    else none
