-- ===== src/Memory/Virtual/Mapping.antt =====
-- sys/memory/vmemory.c: mapping pages in the kernel's directory.
pub mod Tables
pub mod Ranges
pub mod Within
pub mod Allocation
mod Tests
use firedrake.Common.{
  ℕ, zero, suc, ◌+◌, ◌-◌, ◌*◌, ◌/◌, ◌%◌, Bool, true, false, Option, none, some, ltb, ◌&&◌, ◌||◌,
  ◌==◌, if◌then◌else◌, add32, bit_or,
}
use firedrake.Memory.Physical as Pages
use firedrake.Memory.Physical.{page_size}
use firedrake.Memory.Virtual.{
  Machine, table_length, lower_bound, upper_bound, kernel_directory, flags_userland, is_present,
  frame_of, write_word, clear_words, table_at, find_free_pages,
}

infixl 5 ◌>>=◌
abbrev pub ◌>>=◌ {ℓ κ} : {A : Type ℓ} {B : Type κ} → Option A → (A → Option B) → Option B
none >>= f = none
some a >>= f = f a

-- the assertions of `__vm_mapPage__noLock`
pub mapping_holds : (paddress vaddress flags : ℕ) → Bool
mapping_holds paddress vaddress flags =
    ltb 0 vaddress
    && (ltb 0 paddress || flags == 0)
    && vaddress % page_size == 0
    && paddress % page_size == 0

-- A new page table for the entry `i` of the kernel's directory, in the page that `pm_alloc` returned:
-- 1024 bytes of it, a quarter, are set to 0.
pub new_table : Machine → (i page : ℕ) → Machine
new_table m i page = record m {
  words =
      clear_words (write_word m.words kernel_directory i (bit_or page flags_userland))
        (page / page_size) (table_length / 4);
}

-- the page table for the entry `i` of the kernel's directory, made if it is not there
pub make_table : Machine → (i : ℕ) → Option Machine
make_table m i = if is_present (m.words kernel_directory i) then some m else (do
  (page, physical) ← Pages.alloc m.physical 1
  some (new_table (record m { physical = physical }) i page))

-- `pageTable[index % VM_PAGETABLE_LENGTH] = w`, in a directory that has the table
pub set_entry : Machine → (directory index w : ℕ) → Machine
set_entry m directory index w = record m {
  words =
      write_word m.words (frame_of (m.words directory (index / table_length)))
        (index % table_length) w;
}

-- `__vm_mapPage__noLock` on the kernel's directory. `none` is a failed assertion, or a wait for the
-- lock of the physical allocator that does not end.
pub map_page : Machine → (paddress vaddress flags : ℕ) → Option Machine
map_page m paddress vaddress flags =
    if mapping_holds paddress vaddress flags
    then (do
      m' ← make_table m (vaddress / page_size / table_length)
      some (set_entry m' kernel_directory (vaddress / page_size) (bit_or paddress flags)))
    else none

-- `__vm_mapPageRange__noLock` on the kernel's directory
pub map_page_range : Machine → (paddress vaddress pages flags : ℕ) → Option Machine
map_page_range m paddress vaddress zero flags = some m
map_page_range m paddress vaddress (suc n) flags = do
  m' ← map_page m paddress vaddress flags
  map_page_range m' (add32 paddress page_size) (add32 vaddress page_size) n flags

-- `__vm_findFreePages__kernel`
pub find_kernel : Machine → (pages lower upper : ℕ) → Option ℕ
find_kernel m pages lower upper = find_free_pages (table_at m kernel_directory) pages lower upper

-- what follows a search that has found an address
pub map_found : Machine → (paddress vaddress pages flags : ℕ) → Option (ℕ × Machine)
map_found m paddress vaddress pages flags = do
  m' ← map_page_range m paddress vaddress pages flags
  some (vaddress, m')

-- `vm_allocLimit` on the kernel's directory, less the lock: the address, or 0, and the new state
pub alloc_within : Machine → (paddress pages lower upper flags : ℕ) → Option (ℕ × Machine)
alloc_within m paddress pages lower upper flags = do
  vaddress ← find_kernel m pages lower upper
  if vaddress == 0 then some (0, m) else map_found m paddress vaddress pages flags

-- `__vm_alloc_noLock` on the kernel's directory
pub alloc : Machine → (paddress pages flags : ℕ) → Option (ℕ × Machine)
alloc m paddress pages flags = alloc_within m paddress pages lower_bound upper_bound flags

-- the loop of `vm_free`, on the kernel's directory
pub unmap_range : Machine → (vaddress pages : ℕ) → Option Machine
unmap_range m vaddress zero = some m
unmap_range m vaddress (suc n) = do
  m' ← map_page m 0 vaddress 0
  unmap_range m' (add32 vaddress page_size) n

-- `vm_allocLimit` on the kernel's directory. `none` is a wait for the lock that does not end, too.
pub vm_alloc_limit : Machine → (paddress pages lower upper flags : ℕ) → Option (ℕ × Machine)
vm_alloc_limit m paddress pages lower upper flags =
    if m.locked then none else alloc_within m paddress pages lower upper flags

-- `vm_alloc` on the kernel's directory
pub vm_alloc : Machine → (paddress pages flags : ℕ) → Option (ℕ × Machine)
vm_alloc m paddress pages flags = vm_alloc_limit m paddress pages lower_bound upper_bound flags

-- `vm_free` on the kernel's directory
pub vm_free : Machine → (vaddress pages : ℕ) → Option Machine
vm_free m vaddress pages = if m.locked then none else unmap_range m vaddress pages
