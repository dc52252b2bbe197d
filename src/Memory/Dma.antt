-- ===== src/Memory/Dma.antt =====
-- sys/memory/dma.c: requests for memory that devices can reach.
pub mod Collect
mod Tests
use firedrake.Common.{
  ℕ, zero, suc, ◌+◌, Bool, Option, none, some, List, [], ◌∷◌, ◌++◌, ltb, ◌==◌, ◌&&◌, ◌||◌, not,
  if◌then◌else◌,
}
use firedrake.Memory.Physical as Pages
use firedrake.Memory.Virtual.{Machine}
use firedrake.Memory.Virtual.Mapping.{◌>>=◌, vm_free}
use firedrake.Memory.Virtual.Spaces.{fulfill_dma}

-- `kDMAMaxPhysicalFragments`
abbrev pub max_fragments : ℕ
max_fragments = 32

-- `dma_t`: the fragments, each with the number of its pages, as a list
pub record Dma : Type 0 where
  pub fragments : List (ℕ × ℕ)
  pub pages : ℕ
  pub vaddress : ℕ

-- the loop of `dma_free`
pub free_fragments : Machine → List (ℕ × ℕ) → Option Machine
free_fragments m [] = some m
free_fragments m ((fragment, pages) ∷ rest) = do
  physical ← Pages.free m.physical fragment pages
  free_fragments (record m { physical = physical }) rest

-- `dma_free`, less the release of the struct
pub dma_free : Machine → Dma → Option Machine
dma_free m dma = do
  m' ← free_fragments m dma.fragments
  if dma.vaddress == 0 then some m' else vm_free m' dma.vaddress dma.pages

-- The loop of `dma_request`, with the fragments that it has, `i` of them. Neither `pagesLeft` nor, over
-- a `continue`, `npages` changes. The first part of a result tells whether the loop went to its end;
-- `none` is fuel that ran out.
pub collect :
    (fuel : ℕ) → Machine → (pages i : ℕ) → List (ℕ × ℕ) → Option (Bool × List (ℕ × ℕ) × Machine)
collect zero m pages i fragments = none
collect (suc fuel) m pages i fragments =
    let round = Pages.alloc m.physical pages >>= λ r.
    let again = collect fuel (record m { physical = r.1 }) pages i fragments in
    let next =
      collect fuel (record m { physical = r.1 }) pages (i + 1) (fragments ++ (r.0, pages) ∷ []) in
    if r.0 == 0
    then if pages == 1 then some (Bool.false, fragments, record m { physical = r.1 }) else again
    else next in
    if ltb 0 pages && ltb i max_fragments then round else some (Bool.true, fragments, m)

-- the fragments of a request: one of all the pages, or those of the loop
pub fragments_for :
    (fuel : ℕ)
    → Machine
    → (pages : ℕ) → (contiguous : Bool) → Option (Bool × List (ℕ × ℕ) × Machine)
fragments_for fuel m pages contiguous =
    let one = Pages.alloc m.physical pages >>= λ r.
    if r.0 == 0
    then some (Bool.false, [], record m { physical = r.1 })
    else some (Bool.true, (r.0, pages) ∷ [], record m { physical = r.1 }) in
    if contiguous || pages == 1 then one else collect fuel m pages 0 []

-- what follows the collection of the fragments
pub settle :
    (complete : Bool) → List (ℕ × ℕ) → Machine → (pages : ℕ) → Option (Option Dma × Machine)
settle complete fragments m pages =
    let mapped = (do
      (vaddress, m1) ← fulfill_dma m pages fragments
      let dma : Dma = record { fragments = fragments; pages = pages; vaddress = vaddress }
      if vaddress == 0 then (do m2 ← dma_free m1 dma; some (none, m2)) else some (some dma, m1)) in
    let dropped = (do
      m1 ← dma_free m (record { fragments = fragments; pages = pages; vaddress = 0 })
      some (none, m1)) in
    if complete then mapped else dropped

-- `dma_request`: the request, or none for NULL
pub dma_request :
    (fuel : ℕ)
    → (memory : Bool) → Machine
    → (pages : ℕ) → (contiguous : Bool) → Option (Option Dma × Machine)
dma_request fuel memory m pages contiguous =
    let request = (do
      (complete, fragments, m1) ← fragments_for fuel m pages contiguous
      settle complete fragments m1 pages) in
    if memory then request else some (none, m)
