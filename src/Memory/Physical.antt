-- ===== src/Memory/Physical.antt =====
-- sys/memory/pmemory.c: the physical pages, free or used, as a bitmap of 2 ^ 20 bits.
pub mod Bitmaps
pub mod Runs
pub mod Find
pub mod Allocation
mod Tests
use firedrake.Common.{
  ℕ, zero, suc, ◌+◌, ◌-◌, ◌/◌, ◌%◌, Bool, false, Option, none, some, ltb, ◌==◌, if◌then◌else◌,
  add32, mul32,
}
use firedrake.Common.Bits.{test_bit, set_bit, clear_bit}

abbrev pub page_size : ℕ
page_size = 0x1000

-- `PM_HEAPSIZE`, the words of the bitmap
abbrev pub heap_size : ℕ
heap_size = 32768

-- `__pm_heap`: a set bit is a free page.
abbrev pub Bitmap : Type 0
Bitmap = ℕ → ℕ

unfoldable pub update : Bitmap → ℕ → ℕ → Bitmap
update h i w k = if k == i then w else h k

-- `__pm_markUsed` and `__pm_markFree`, of the address of a page
unfoldable pub mark_used : Bitmap → ℕ → Bitmap
mark_used h page =
    let index = page / page_size in update h (index / 32) (clear_bit (h (index / 32)) (index % 32))

pub mark_free : Bitmap → ℕ → Bitmap
mark_free h page =
    let index = page / page_size in update h (index / 32) (set_bit (h (index / 32)) (index % 32))

-- How a round of the search ends: it returns a page, or goes on with the count `found` of free
-- pages in a row, the first of them at `page`.
pub data Search : Type 0 where
  hit : ℕ → Search
  go : ℕ → ℕ → Search

-- `page`, once the run's first free page is met
abbrev pub run_start : ℕ → ℕ → ℕ → ℕ
run_start found page here = if found == 0 then here else page

-- `if(found > pages) return page`
abbrev pub check_run : ℕ → ℕ → ℕ → Search
check_run pages found page = if ltb pages found then hit page else go found page

-- the loop over the bits of word `i` from bit `j` on
unfoldable pub search_bits : ℕ → (w i pages j found page : ℕ) → Search
search_bits zero w i pages j found page = go found page
search_bits (suc rounds) w i pages j found page =
    elim (if test_bit w j
      then check_run pages (add32 found 1)
          (run_start found page (mul32 (add32 (mul32 i 32) j) page_size))
      else go 0 page) [
        | hit p ↦ hit p
        | go found' page' ↦ search_bits rounds w i pages (j + 1) found' page'
      ]

-- one round of the loop over the words
unfoldable pub search_word : Bitmap → (i pages found page : ℕ) → Search
search_word h i pages found page =
    if h i == 0
    then go 0 page
    else if h i == 0xFFFFFFFF
    then check_run pages (add32 found 32) (run_start found page (mul32 (mul32 i 32) page_size))
    else elim (search_bits 32 (h i) i pages 0 found page) [
      | hit p ↦ hit p
      | go found' page' ↦ check_run pages found' page'
    ]

-- the loop over the words, `rounds` of which are left
unfoldable pub search_words : ℕ → Bitmap → (i pages found page : ℕ) → ℕ
search_words zero h i pages found page = 0
search_words (suc rounds) h i pages found page = elim (search_word h i pages found page) [
  | hit p ↦ p
  | go found' page' ↦ search_words rounds h (i + 1) pages found' page'
]

-- `__pm_findFreePages`
unfoldable pub find_free_pages : Bitmap → (lower_limit pages : ℕ) → ℕ
find_free_pages h lower_limit pages =
    let i = lower_limit / page_size / 32 in search_words (heap_size - i) h i pages 0 0

-- the loops that mark the pages from the address `page` on
unfoldable pub mark_used_range : Bitmap → ℕ → ℕ → Bitmap
mark_used_range h page zero = h
mark_used_range h page (suc n) = mark_used_range (mark_used h page) (add32 page page_size) n

pub mark_free_range : Bitmap → ℕ → ℕ → Bitmap
mark_free_range h page zero = h
mark_free_range h page (suc n) = mark_free_range (mark_free h page) (add32 page page_size) n

-- the module's state: the bitmap, and whether `__pm_spinlock` is held
pub record Physical : Type 0 where
  pub heap : Bitmap
  pub locked : Bool

-- `pm_allocLimit`: the address of the first page (0 for none), and the new state. `none` is a call
-- that waits for the lock for ever.
unfoldable pub alloc_limit : Physical → (lower_limit pages : ℕ) → Option (ℕ × Physical)
alloc_limit m lower_limit pages =
    let page = find_free_pages m.heap lower_limit pages in
    if m.locked
    then none
    else some (
      page,
      record {
        heap = if page == 0 then m.heap else mark_used_range m.heap page pages;
        locked = false;
      },
    )

-- `pm_alloc`
unfoldable pub alloc : Physical → (pages : ℕ) → Option (ℕ × Physical)
alloc m pages = alloc_limit m 0 pages

-- `pm_free`
pub free : Physical → (page pages : ℕ) → Option Physical
free m page pages =
    if m.locked
    then none
    else some (record { heap = mark_free_range m.heap page pages; locked = false })
