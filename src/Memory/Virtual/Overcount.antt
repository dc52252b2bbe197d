-- ===== src/Memory/Virtual/Overcount.antt =====
-- The search for free pages where the lower limit has no page table.
use firedrake.Common.{
  ℕ, suc, ◌+◌, ◌-◌, ◌*◌, ◌/◌, ◌%◌, ◌^◌, ◌<◌, ◌≤◌, ◌≡◌, ap, ◌∙◌, true, false, arith, Option, none,
  some, ltb, leb, add32, mul32, lt→ltb,
}
use firedrake.Memory.Physical.{page_size}
use firedrake.Memory.Virtual.{
  table_length, address_of, scan_directory, scan_entry, outcome, limits_hold, find_free_pages,
  upper_bound,
}

scan_directory-absent :
    (rounds : ℕ) (tables : ℕ → Option (ℕ → ℕ)) (pages upper i j : ℕ)
    → tables i ≡ none
    → i < table_length
    → 0 < pages
    → pages ≤ table_length
    → i * 2 ^ 22 < upper
    → scan_directory (suc (suc rounds)) tables pages upper i j 0 0 ≡ (table_length, address_of i j)
unfolding scan_directory scan_entry
scan_directory-absent rounds tables pages upper i j absent ib pos few inside =
    let go : ltb 0 pages ≡ true = lt→ltb 0 pages pos in
    let within' : ltb (mul32 i (2 ^ 22)) upper ≡ true = lt→ltb _ _ (omega arith) in
    let table : leb table_length i ≡ false = ground arith in
    let stop : ltb table_length pages ≡ false = ground arith in
    rw (go, within', table, absent, stop)

limits_bounds :
    (pages lower upper : ℕ)
    → limits_hold pages lower upper ≡ true
    → (0 < pages) × (lower % page_size ≡ 0) × (upper ≤ upper_bound)
unfolding limits_hold
limits_bounds pages lower upper h = ground arith

-- The part of an absent page table behind the lower limit counts as a whole table: where the directory
-- has no table for the lower limit, the search for at most 1024 pages returns the lower limit, within
-- the upper limit, whatever the next page table maps.
pub find_free_pages-overcount :
    (tables : ℕ → Option (ℕ → ℕ)) (pages lower upper : ℕ)
    → limits_hold pages lower upper ≡ true
    → pages ≤ table_length
    → tables (lower / 2 ^ 22) ≡ none
    → lower + pages * page_size ≤ upper
    → find_free_pages tables pages lower upper ≡ some lower
unfolding find_free_pages outcome
find_free_pages-overcount tables pages lower upper holds few absent fits =
    let (pos, aligned, top) = limits_bounds pages lower upper holds in
    let i = lower / 2 ^ 22 in
    let j = lower / page_size % table_length in
    let at : address_of i j ≡ lower = omega arith in
    let rounds : suc table_length - i ≡ suc (suc (1023 - i)) = omega arith in
    let scanned =
      ap (λ (n : ℕ). scan_directory n tables pages upper i j 0 0) rounds
      ∙ scan_directory-absent (1023 - i) tables pages upper i j absent (omega arith) pos few
          (omega arith)
      ∙ ap (λ (v : ℕ). (table_length, v)) at in
    let enough : leb pages table_length ≡ true = ground arith in
    let fits' : leb (add32 lower (mul32 pages page_size)) upper ≡ true = ground arith in
    rw (holds, scanned, enough, fits')
