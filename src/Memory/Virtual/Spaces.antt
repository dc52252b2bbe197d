-- ===== src/Memory/Virtual/Spaces.antt =====
-- sys/memory/vmemory.c on the directories of user space. The kernel reaches such a directory, and its
-- page tables, through a page of its own directory that it maps for the while.
use firedrake.Common.{
  bit_or, ℕ, zero, suc, ◌+◌, ◌-◌, ◌*◌, ◌/◌, ◌%◌, ◌^◌, Bool, true, false, Option, none, some, List,
  [], ◌∷◌, ltb, leb, ◌&&◌, ◌==◌, if◌then◌else◌, add32, mul32,
}
use firedrake.Memory.Physical as Pages
use firedrake.Memory.Physical.{page_size}
use firedrake.Memory.Virtual.{
  Machine, table_length, lower_bound, upper_bound, kernel_directory, flags_kernel, flags_userland,
  is_present, frame_of, write_word, clear_words, scan_entry, scan_table, limits_hold, outcome,
}
use firedrake.Memory.Virtual.Mapping.{
  ◌>>=◌, mapping_holds, set_entry, map_page, map_page_range, find_kernel, alloc, vm_free,
}

-- `__vm_alloc_noLock(__vm_kernelDirectory, ..., 1, VM_FLAGS_KERNEL)` of a frame that is then read: the
-- page that it is mapped at. Where there is none, the code reads through NULL, which is not mapped.
pub borrow : Machine → (frame : ℕ) → Option (ℕ × Machine)
borrow m frame = do
  (page, m') ← alloc m (frame * page_size) 1 flags_kernel
  if page == 0 then none else some (page, m')

-- the same with `vm_alloc`
pub vm_borrow : Machine → (frame : ℕ) → Option (ℕ × Machine)
vm_borrow m frame = if m.locked then none else borrow m frame

-- `__vm_mapPage__noLock(__vm_kernelDirectory, 0x0, page, 0)`
pub give_back : Machine → (page : ℕ) → Option Machine
give_back m page = map_page m 0 page 0

-- A page table for the entry `i` of a directory, from `pm_alloc`, which is not cleared yet.
pub add_table : Machine → (directory i : ℕ) → Option Machine
add_table m directory i = do
  (page, physical) ← Pages.alloc m.physical 1
  some (record m {
    words = write_word m.words directory i (bit_or page flags_userland);
    physical = physical;
  })

-- The rest of `__vm_mapPage__noLock`: the page table of the page is mapped at a page of the kernel,
-- cleared in part if it is new, and written.
pub map_through :
    Machine → (is_new : Bool) → (directory paddress vaddress flags : ℕ) → Option Machine
map_through m is_new directory paddress vaddress flags = do
  let index = vaddress / page_size
  let frame = frame_of (m.words directory (index / table_length))
  page ← find_kernel m 1 lower_bound upper_bound
  m1 ← map_page m (frame * page_size) page flags_kernel
  let m2 = record m1 {
    words = if is_new then clear_words m1.words frame (table_length / 4) else m1.words;
  }
  give_back (set_entry m2 directory index (bit_or paddress flags)) page

-- `__vm_mapPage__noLock` on a directory of user space, whose frame is `directory`
pub map_user_page : Machine → (directory paddress vaddress flags : ℕ) → Option Machine
map_user_page m directory paddress vaddress flags =
    let i = vaddress / page_size / table_length in
    let with_new =
      add_table m directory i >>= λ m'. map_through m' true directory paddress vaddress flags in
    if mapping_holds paddress vaddress flags
    then if is_present (m.words directory i)
      then map_through m false directory paddress vaddress flags
      else with_new
    else none

-- `__vm_mapPageRange__noLock` on a directory of user space
pub map_user_range : Machine → (directory paddress vaddress pages flags : ℕ) → Option Machine
map_user_range m directory paddress vaddress zero flags = some m
map_user_range m directory paddress vaddress (suc n) flags = do
  m' ← map_user_page m directory paddress vaddress flags
  map_user_range m' directory (add32 paddress page_size) (add32 vaddress page_size) n flags

-- a round of the loop of `__vm_findFreePages__user`: a page table that is there is borrowed
pub scan_user_entry : Machine → (directory pages i j found start : ℕ) → Option ((ℕ × ℕ) × Machine)
scan_user_entry m directory pages i j found start =
    let frame = frame_of (m.words directory i) in
    let through = (do
      (page, m') ← borrow m frame
      let next = scan_table (table_length - j) (m'.words frame) pages i j found start
      m'' ← give_back m' page
      some (next, m'')) in
    if is_present (m.words directory i)
    then through
    else some (scan_entry none pages i j found start, m)

-- the loop of `__vm_findFreePages__user`
pub scan_user_directory :
    ℕ → Machine → (directory pages upper i j found start : ℕ) → Option ((ℕ × ℕ) × Machine)
scan_user_directory zero m directory pages upper i j found start = some ((found, start), m)
scan_user_directory (suc rounds) m directory pages upper i j found start =
    let rest = scan_user_entry m directory pages i j found start >>= λ r.
    scan_user_directory rounds r.1 directory pages upper (i + 1) 0 r.0.0 r.0.1 in
    if ltb found pages && ltb (mul32 i (2 ^ 22)) upper
    then if leb table_length i then some ((0, start), m) else rest
    else some ((found, start), m)

-- `__vm_findFreePages__user`
pub find_user : Machine → (directory pages lower upper : ℕ) → Option (ℕ × Machine)
find_user m directory pages lower upper =
    let i = lower / 2 ^ 22 in
    let j = lower / page_size % table_length in
    let scanned = scan_user_directory (suc table_length - i) m directory pages upper i j 0 0 in
    if limits_hold pages lower upper
    then (scanned >>= λ r. some (outcome pages upper r.0, r.1))
    else none

-- `vm_allocLimit` on a directory of user space: the directory is mapped into the kernel's for the while.
pub alloc_user : Machine → (directory paddress pages lower upper flags : ℕ) → Option (ℕ × Machine)
alloc_user m directory paddress pages lower upper flags = if m.locked then none else (do
  (page, m1) ← borrow m directory
  (vaddress, m2) ← find_user m1 directory pages lower upper
  m3 ←
      (if vaddress == 0 then some m2 else map_user_range m2 directory paddress vaddress pages flags)
  m4 ← give_back m3 page
  some (vaddress, m4))

-- `vm_mapPageRange` on a directory of user space
pub vm_map_user_range : Machine → (directory paddress vaddress pages flags : ℕ) → Option Machine
vm_map_user_range m directory paddress vaddress pages flags = if m.locked then none else (do
  (page, m1) ← borrow m directory
  m2 ← map_user_range m1 directory paddress vaddress pages flags
  give_back m2 page)

-- the loop of `vm_free`, on a directory of user space
pub unmap_user_range : Machine → (directory vaddress pages : ℕ) → Option Machine
unmap_user_range m directory vaddress zero = some m
unmap_user_range m directory vaddress (suc n) = do
  m' ← map_user_page m directory 0 vaddress 0
  unmap_user_range m' directory (add32 vaddress page_size) n

-- `vm_free` on a directory of user space
pub free_user : Machine → (directory vaddress pages : ℕ) → Option Machine
free_user m directory vaddress pages = if m.locked then none else (do
  (page, m1) ← borrow m directory
  m2 ← unmap_user_range m1 directory vaddress pages
  give_back m2 page)

-- `__vm_getPagetableEntry`, of any directory
pub page_table_entry : Machine → (directory vaddress : ℕ) → Option (ℕ × Machine)
page_table_entry m directory vaddress =
    let index = vaddress / page_size in
    let e = m.words directory (index / table_length) in
    let through = (do
      (page, m') ← borrow m (frame_of e)
      let entry = m'.words (frame_of e) (index % table_length)
      m'' ← give_back m' page
      some (if is_present entry then entry else 0, m'')) in
    if is_present e then through else some (0, m)

-- `vm_resolveVirtualAddress`: the physical address, or 0
pub resolve : Machine → (directory vaddress : ℕ) → Option (ℕ × Machine)
resolve m directory vaddress =
    let answer = λ (entry : ℕ).
      if is_present entry then frame_of entry * page_size + vaddress % page_size else 0 in
    let in_kernel = (do
      (entry, m') ← page_table_entry m directory vaddress
      some (answer entry, m')) in
    let in_user = (do
      (page, m1) ← borrow m directory
      (entry, m2) ← page_table_entry m1 directory vaddress
      m3 ← give_back m2 page
      some (answer entry, m3)) in
    if m.locked then none else if directory == kernel_directory then in_kernel else in_user

-- the loop of `vm_fulfillDMARequest` over the fragments, each with its pages
pub map_fragments : Machine → List (ℕ × ℕ) → (address : ℕ) → Option Machine
map_fragments m [] address = some m
map_fragments m ((fragment, pages) ∷ rest) address = do
  m' ← map_page_range m fragment address pages flags_kernel
  map_fragments m' rest (add32 address (mul32 page_size pages))

-- `vm_fulfillDMARequest`: the address, or 0 where it returns false
pub fulfill_dma : Machine → (pages : ℕ) → List (ℕ × ℕ) → Option (ℕ × Machine)
fulfill_dma m pages fragments = if m.locked then none else (do
  address ← find_kernel m pages lower_bound upper_bound
  m' ← (if address == 0 then some m else map_fragments m fragments address)
  some (address, m'))

-- `IR_TRAMPOLINE_PHYSICAL`, `IR_TRAMPOLINE_BEGIN` and `IR_TRAMPOLINE_PAGES`
abbrev pub trampoline_physical : ℕ
trampoline_physical = 0x2000

abbrev pub trampoline_begin : ℕ
trampoline_begin = 0xFFAFF000

abbrev pub trampoline_pages : ℕ
trampoline_pages = 2

-- `vm_createDirectory`: the physical address of the new directory
pub create_directory : Machine → Option (ℕ × Machine)
create_directory m = do
  (physical_page, physical) ← Pages.alloc m.physical 1
  let frame = physical_page / page_size
  (page, m1) ← vm_borrow (record m { physical = physical }) frame
  let cleared = clear_words m1.words frame table_length
  let m2 = record m1 { words = write_word cleared frame 0xFF (bit_or physical_page flags_kernel) }
  m3 ← map_user_range m2 frame trampoline_physical trampoline_begin trampoline_pages flags_kernel
  m4 ← vm_free m3 page 1
  some (physical_page, m4)

-- `entry & ~VM_PAGETABLEFLAG_ALL`
abbrev pub without_flags : ℕ → ℕ
without_flags entry = entry / 128 * 128

-- the loop of `vm_deleteDirectory`, with `n` entries left
pub free_tables : Machine → (directory n : ℕ) → Option Machine
free_tables m directory zero = some m
free_tables m directory (suc n) = do
  let table = without_flags (m.words directory (table_length - suc n))
  m' ←
      (if table == 0
        then some m
        else (do physical ← Pages.free m.physical table 1; some (record m { physical = physical })))
  free_tables m' directory n

-- `vm_deleteDirectory` of the directory in the frame `directory`
pub delete_directory : Machine → (directory : ℕ) → Option Machine
delete_directory m directory = do
  (page, m1) ← vm_borrow m directory
  m2 ← free_tables m1 directory table_length
  m3 ← vm_free m2 page 1
  physical ← Pages.free m3.physical (directory * page_size) 1
  some (record m3 { physical = physical })

-- `vm_findFreePages_noLock`. It raises the lower limit to `VM_UPPER_LIMIT`.
pub find_no_lock : Machine → (directory pages lower upper : ℕ) → Option (ℕ × Machine)
find_no_lock m directory pages lower upper =
    let lower' = if ltb lower upper_bound then upper_bound else lower in
    let in_kernel = (do vaddress ← find_kernel m pages lower' upper; some (vaddress, m)) in
    let in_user = (do
      (page, m1) ← borrow m directory
      (vaddress, m2) ← find_user m1 directory pages lower' upper
      m3 ← give_back m2 page
      some (vaddress, m3)) in
    if directory == kernel_directory then in_kernel else in_user
