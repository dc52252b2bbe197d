-- ===== src/Memory/Physical/Tests.antt =====
-- The theorems on the physical pages at a bitmap whose second word is free.
use firedrake.Common.{ℕ, ◌+◌, ◌*◌, ◌≡◌, ◌<◌, refl, false, some, ◌==◌, if◌then◌else◌, arith}
use firedrake.Common.Bits.{test_bit, clear_bit}
use firedrake.Memory.Physical.{
  Bitmap, Physical, page_size, find_free_pages, alloc_limit, free, mark_used_range, mark_used,
  update, search_words, search_word, search_bits,
}
use firedrake.Memory.Physical.Bitmaps.{is_free}
use firedrake.Memory.Physical.Find.{Result, find_free_pages-Result}
use firedrake.Memory.Physical.Allocation.{
  Returns, AllocatedOrNone, alloc_limit_lem, free-alloc_limit, alloc_limit-below,
}

abbrev bitmap : Bitmap
bitmap k = if k == 1 then 0xFFFFFFFF else if k == 2 then 0xF0 else 0

abbrev memory : Physical
memory = record { heap = bitmap; locked = false }

find_free_pages-Result_example : Result bitmap 0 5 (find_free_pages bitmap 0 5)
find_free_pages-Result_example = find_free_pages-Result bitmap 0 5 (omega arith)

alloc_limit_lem_example : Returns (AllocatedOrNone memory 0 5) (alloc_limit memory 0 5)
alloc_limit_lem_example = alloc_limit_lem memory 0 5 refl (omega arith)

null_used : is_free bitmap 0 ≡ false
unfolding test_bit
null_used = refl

abbrev after : Bitmap → ℕ → ℕ → Physical
after h page pages = record { heap = mark_used_range h page pages; locked = false }

-- the state after two pages are taken: pages 32 and 33
abbrev taken : Physical
taken = after bitmap (32 * page_size) 2

first_call : alloc_limit memory 0 2 ≡ some (32 * page_size, taken)
unfolding alloc_limit find_free_pages search_words search_word
first_call = refl

second_call : alloc_limit taken 0 1 ≡ some (34 * page_size, after taken.heap (34 * page_size) 1)
unfolding alloc_limit find_free_pages search_words search_word search_bits mark_used_range mark_used
    update test_bit clear_bit
second_call = refl

free-alloc_limit_example :
    (m'' : Physical) × (free taken (32 * page_size) 2 ≡ some m'')
    × ((p : ℕ) → is_free m''.heap p ≡ is_free bitmap p)
free-alloc_limit_example =
    free-alloc_limit memory taken 0 2 (32 * page_size) (omega arith) first_call (omega arith)

alloc_limit-below_example :
    Returns
      (λ page m'. (page ≡ 1 * 32 * page_size) × (page < (1 * 32 + 5) * page_size))
      (alloc_limit memory ((1 * 32 + 5) * page_size) 3)
alloc_limit-below_example =
    alloc_limit-below memory 1 5 3 refl (omega arith) (omega arith) (omega arith) (omega arith) refl
