-- ===== src/Memory/Virtual/Mapping/Tests.antt =====
-- The theorems on the kernel's directory at a concrete machine.
use firedrake.Common.{
  ℕ, ◌+◌, ◌*◌, ◌/◌, ◌%◌, ◌^◌, ◌≤◌, ◌≡◌, ◌≢◌, refl, true, false, ◌⊎◌, some, none, arith, ltb, ◌==◌,
  if◌then◌else◌, inr,
}
use firedrake.Memory.Physical as Pages
use firedrake.Memory.Physical.{Physical, page_size}
use firedrake.Memory.Virtual.{
  Machine, table_at, kernel_directory, find_free_pages, limits_hold, write_word, scan_directory,
  scan_entry, scan_table, outcome,
}
use firedrake.Memory.Virtual.Search.{Unmapped, find_free_pages_lem}
use firedrake.Memory.Virtual.Overcount.{find_free_pages-overcount}
use firedrake.Memory.Virtual.Mapping.{
  vm_alloc_limit, vm_free, alloc_within, find_kernel, map_found, map_page_range, map_page,
  mapping_holds, make_table, set_entry,
}
use firedrake.Memory.Virtual.SelfMap.{page_walk, page_table_pointer, page_table_pointer_lem}
use firedrake.Memory.Virtual.Mapping.Tables.{entry, IsSound, map_page-stale}
use firedrake.Memory.Virtual.Mapping.Within.{IsReady, Allocated}
use firedrake.Memory.Virtual.Mapping.Allocation.{
  LeadsTo, SameMapping, vm_alloc_limit_lem, free-vm_alloc_limit,
}

-- A directory with tables for the first and for the last pages, in the frames 8 and 9, and with itself.
abbrev words : ℕ → ℕ → ℕ
words f i =
    if f == 1
    then (if i == 0 then 0x8003 else if i == 0xFF then 0x1003 else if i == 1023 then 0x9003 else 0)
    else if f == 8
    then (if ltb i 3 then 0x3003 else 0)
    else if f == 9
    then 0x5003
    else 0

abbrev machine : Machine
machine = record {
  words = words;
  physical = record { heap = λ i. 0; locked = false };
  locked = false;
}

machine-IsSound : IsSound machine
machine-IsSound = record {
  self_present = refl;
  self_frame = refl;
  distinct = λ i j bi bj pi pj e. ground arith;
}

machine-IsReady : IsReady machine 4096 0x400000
machine-IsReady = record {
  sound = machine-IsSound;
  unlocked = refl;
  has_tables =
      λ q l h off. let low : q / 1024 ≡ 0 = omega arith in (omega arith, omega arith, rw low refl);
  last_mapped = refl;
}

holds : limits_hold 2 4096 0x400000 ≡ true
unfolding limits_hold
holds = refl

holds_far : limits_hold 1024 0x801000 0xFFFFF000 ≡ true
unfolding limits_hold
holds_far = refl

has_table : table_at machine kernel_directory (4096 / 2 ^ 22) ≢ none
unfolding table_at
has_table e = cc e

no_table : table_at machine kernel_directory (0x801000 / 2 ^ 22) ≡ none
unfolding table_at
no_table = refl

find_free_pages_lem_example :
    (address : ℕ) × (find_free_pages (table_at machine kernel_directory) 2 4096 0x400000
      ≡ some address)
    × ((address ≡ 0) ⊎ Unmapped (table_at machine kernel_directory) 4096 0x400000 2 address)
find_free_pages_lem_example =
    find_free_pages_lem (table_at machine kernel_directory) 2 4096 0x400000 holds (omega arith)
      (omega arith) (inr has_table)

-- 4 MB from 8 MB on are not mapped, and have no table; 1024 pages from 8 MB and a page on are returned,
-- although the last of them would be in the next table.
find_free_pages-overcount_example :
    find_free_pages (table_at machine kernel_directory) 1024 0x801000 0xFFFFF000 ≡ some 0x801000
find_free_pages-overcount_example =
    find_free_pages-overcount (table_at machine kernel_directory) 1024 0x801000 0xFFFFF000 holds_far
      (omega arith) no_table (omega arith)

vm_alloc_limit_lem_example :
    (vaddress : ℕ) × (m' : Machine) × (vm_alloc_limit machine 0x7000 2 4096 0x400000 3
      ≡ some (vaddress, m'))
    × (((vaddress ≡ 0) × (m' ≡ machine))
        ⊎ (Allocated machine 4096 0x400000 0x7000 2 3 vaddress m'
            × LeadsTo m' (vaddress / 4096) 2 0x7000 3))
vm_alloc_limit_lem_example =
    vm_alloc_limit_lem machine 0x7000 2 4096 0x400000 3 machine-IsReady holds (omega arith)
      (omega arith) (inr has_table) (omega arith) refl (omega arith) (omega arith) refl

-- the machine after two pages are mapped from 0x3000 on
abbrev mapped : Machine
mapped = record machine { words = write_word (write_word words 8 3 0x7003) 8 4 0x8003 }

vm_alloc_limit_run : vm_alloc_limit machine 0x7000 2 4096 0x400000 3 ≡ some (0x3000, mapped)
unfolding vm_alloc_limit alloc_within find_kernel find_free_pages limits_hold scan_directory
    scan_entry scan_table outcome table_at map_found map_page_range map_page mapping_holds
    make_table set_entry write_word
vm_alloc_limit_run = refl

free-vm_alloc_limit_example :
    (m'' : Machine) × (vm_free mapped 0x3000 2 ≡ some m'') × SameMapping machine m''
free-vm_alloc_limit_example =
    free-vm_alloc_limit machine mapped 0x7000 2 4096 0x400000 3 0x3000 machine-IsReady holds
      (omega arith) (omega arith) (inr has_table) (omega arith) refl (omega arith)
      vm_alloc_limit_run (omega arith)

-- A new page table in a frame whose words are 1: the entries from 256 on stay, and are present.
abbrev dirty : Machine
dirty = record machine {
  words = λ f i. if f == 33 then 1 else words f i;
  physical = record { heap = λ i. if i == 1 then 0xFFFFFFFF else 0; locked = false };
}

stale_holds : mapping_holds 0x7000 0x801000 3 ≡ true
unfolding mapping_holds
stale_holds = refl

-- the state of the physical allocator after the page 32 is taken
abbrev taken : Physical
taken = record { heap = Pages.mark_used dirty.physical.heap 0x20000; locked = false }

pm_alloc_run : Pages.alloc dirty.physical 1 ≡ some (0x20000, taken)
unfolding Pages.alloc Pages.alloc_limit Pages.find_free_pages Pages.search_words Pages.search_word
    Pages.mark_used_range
pm_alloc_run = refl

map_page-stale_example :
    (m' : Machine) × (map_page dirty 0x7000 0x801000 3 ≡ some m')
    × ((q : ℕ)
        → q / 1024 ≡ 0x801000 / page_size / 1024
        → 256 ≤ q % 1024
        → q ≢ 0x801000 / page_size
        → entry m' q ≡ dirty.words (0x20000 / page_size) (q % 1024))
map_page-stale_example =
    map_page-stale dirty 0x7000 0x801000 3 0x20000 taken stale_holds refl pm_alloc_run refl
      (omega arith)

page_table_pointer_lem_example :
    page_walk words kernel_directory (page_table_pointer 4 + 4 * (4 % 1024)) ≡ some (0x8000 + 16)
page_table_pointer_lem_example = page_table_pointer_lem machine 4 machine-IsSound (omega arith) refl
