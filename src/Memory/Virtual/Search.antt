-- ===== src/Memory/Virtual/Search.antt =====
-- The search for free pages of a directory, with its limits.
use firedrake.Common.{
  ℕ, suc, ◌+◌, ◌-◌, ◌*◌, ◌/◌, ◌%◌, ◌^◌, ◌<◌, ◌≤◌, ◌≡◌, ◌≢◌, refl, ◌⊎◌, inl, inr, true, false, arith,
  dec_lt, Bool-cases, Option, none, some, leb, add32, mul32, leb→le,
}
use firedrake.Memory.Physical.{page_size}
use firedrake.Memory.Virtual.{table_length, scan_directory, limits_hold, outcome, find_free_pages}
use firedrake.Memory.Virtual.Scan.{is_unmapped, Searched, scan_directory-Searched}

-- `pages` pages that no table of a directory maps, from `address` on. They end no later than `upper`,
-- or with the last page of the address space.
pub record Unmapped (tables : ℕ → Option (ℕ → ℕ)) (lower upper pages address : ℕ) : Type 0 where
  pub first : ℕ
  pub is_first : address ≡ first * page_size
  pub above : lower ≤ address
  pub below : (address + pages * page_size ≤ upper) ⊎ (first + pages ≡ 2 ^ 20)
  pub unmapped : (p : ℕ) → first ≤ p → p < first + pages → is_unmapped tables p ≡ true

limits_hold_bounds :
    (pages lower upper : ℕ)
    → limits_hold pages lower upper ≡ true
    → (0 < pages) × (lower % page_size ≡ 0)
unfolding limits_hold
limits_hold_bounds pages lower upper h = ground arith

outcome-Unmapped :
    (tables : ℕ → Option (ℕ → ℕ)) (pages lower upper : ℕ) (scanned : ℕ × ℕ)
    → pages < 2 ^ 20
    → lower % page_size ≡ 0
    → Searched tables (lower / page_size) pages scanned
    → (outcome pages upper scanned ≡ 0)
      ⊎ Unmapped tables lower upper pages (outcome pages upper scanned)
unfolding outcome
outcome-Unmapped tables pages lower upper (found, start) small aligned (inr few) =
    let no_run : leb pages found ≡ false = ground arith in rw no_run (inl refl)
outcome-Unmapped tables pages lower upper (found, start) small aligned (inl (enough, (q, qb, r))) =
    let run : leb pages found ≡ true = ground arith in
    rw run (elim (Bool-cases (leb (add32 start (mul32 pages page_size)) upper)) [
      | inr past ↦ rw past (inl refl)
      | inl inside ↦
          let le = leb→le _ _ inside in
          let at = r.address in
          let to = r.ends in
          let from' = r.above in
          rw inside (
            inr (record {
              first = r.first;
              is_first = at;
              above = omega arith;
              below = elim (dec_lt (r.first + pages) (2 ^ 20)) [
                | yes within ↦ inl (omega arith)
                | no wraps ↦ inr (omega arith)
              ];
              unmapped = λ p a b. r.unmapped p a (omega arith);
            }))
    ])

-- Where the limits pass the assertions, for fewer than 2 ^ 20 pages, and where the lower limit is the
-- start of a page table's range or in one that the directory has, the search returns 0 or the address
-- of `pages` pages that the directory does not map, not below the lower limit. They end no later than
-- the upper limit, or with the last page of the address space, where the end wraps to 0.
pub find_free_pages_lem :
    (tables : ℕ → Option (ℕ → ℕ)) (pages lower upper : ℕ)
    → limits_hold pages lower upper ≡ true
    → pages < 2 ^ 20
    → lower < 2 ^ 32
    → (lower % 2 ^ 22 ≡ 0) ⊎ (tables (lower / 2 ^ 22) ≢ none)
    → (address : ℕ) × (find_free_pages tables pages lower upper ≡ some address)
      × ((address ≡ 0) ⊎ Unmapped tables lower upper pages address)
unfolding find_free_pages
find_free_pages_lem tables pages lower upper holds small word whole =
    let i = lower / 2 ^ 22 in
    let j = lower / page_size % table_length in
    let low = lower / page_size in
    let (pos, aligned) = limits_hold_bounds pages lower upper holds in
    let whole' : (j ≡ 0) ⊎ (tables i ≢ none) = elim whole [
      | inl e ↦ inl (omega arith)
      | inr t ↦ inr t
    ] in
    let scanned = scan_directory (suc table_length - i) tables pages upper i j 0 0 in
    let done =
      scan_directory-Searched tables low (suc table_length - i) pages upper i j 0 0 whole'
        (omega arith) (omega arith) pos small (omega arith) (omega arith) (inr (pos, inl refl)) in
    (
      outcome pages upper scanned,
      rw holds,
      outcome-Unmapped tables pages lower upper scanned small aligned done,
    )
