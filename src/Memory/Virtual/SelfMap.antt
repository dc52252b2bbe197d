-- ===== src/Memory/Virtual/SelfMap.antt =====
-- The addresses by which sys/memory/vmemory.c reaches the kernel's page tables.
use firedrake.Common.{
  ℕ, ◌+◌, ◌*◌, ◌/◌, ◌%◌, ◌^◌, ◌<◌, ◌≡◌, true, arith, Option, none, some, if◌then◌else◌, add32,
}
use firedrake.Memory.Physical.{page_size}
use firedrake.Memory.Virtual.{Machine, table_length, kernel_directory, is_present, frame_of}
use firedrake.Memory.Virtual.Mapping.Tables.{IsSound, self_index}

-- `VM_KERNEL_PAGE_TABLES`
abbrev kernel_page_tables : ℕ
kernel_page_tables = 0x3FC00000

-- `VM_KERNEL_PAGE_TABLES + ((sizeof(uint32_t) * index) & ~0xFFF)`
pub page_table_pointer : (index : ℕ) → ℕ
page_table_pointer index = add32 kernel_page_tables (4 * index / page_size * page_size)

-- How the processor finds the physical address of a virtual one, by a directory in the frame
-- `directory`: a word of the directory, and then a word of the page table; `none` is a page fault.
abbrev pub page_walk : (words : ℕ → ℕ → ℕ) → (directory vaddress : ℕ) → Option ℕ
page_walk words directory vaddress =
    let e = words directory (vaddress / 2 ^ 22) in
    let t = words (frame_of e) (vaddress / page_size % table_length) in
    if is_present e
    then if is_present t then some (frame_of t * page_size + vaddress % page_size) else none
    else none

-- On sound tables, for a page whose page table the kernel's directory has, the pointer to a page table
-- that `__vm_mapPage__noLock` makes, indexed as there, leads the processor to the word of that page
-- table, in the frame that the directory names.
pub page_table_pointer_lem :
    (m : Machine) (index : ℕ)
    → IsSound m
    → index < 2 ^ 20
    → is_present (m.words kernel_directory (index / table_length)) ≡ true
    → page_walk m.words kernel_directory (page_table_pointer index + 4 * (index % table_length))
      ≡ some (
          frame_of (m.words kernel_directory (index / table_length)) * page_size
          + 4 * (index % table_length))
unfolding page_table_pointer
page_table_pointer_lem m index sound small there =
    let v = page_table_pointer index + 4 * (index % table_length) in
    let high : v / 2 ^ 22 ≡ self_index = omega arith in
    let middle : v / page_size % table_length ≡ index / table_length = omega arith in
    let low : v % page_size ≡ 4 * (index % table_length) = omega arith in
    rw (high, middle, low, sound.self_present, sound.self_frame, there)
