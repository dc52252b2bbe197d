-- ===== src/Memory/Heap/Need.antt =====
-- When `__heap_zoneForSize` needs a new zone: what a search of the list that finds nothing says.
use firedrake.Common.{
  ℕ, zero, suc, ◌<◌, ◌≤◌, ◌≡◌, sym, ◌⊎◌, inl, inr, Bool, true, false, ◌&&◌, none, some, List, [],
  ◌∷◌, arith, leb, get_elem?, Option-cases, some_inj,
}
use mathlib.Core.Path.{subst}
use firedrake.Memory.Zone.{
  Zone, Allocation, large, is_free, same_type, zone_type_for_size, find, required_size,
}
use firedrake.Memory.Zone.Table.{find-none}
use firedrake.Memory.Heap.{Heap, candidate, search_zones}

-- The zone is of the type for the size, and the entry `i` is free and has the bytes that are required.
pub record HasRoom (aligned : Bool) (size : ℕ) (z : Zone) (i : ℕ) : Type 0 where
  pub right_type : same_type z.type (zone_type_for_size size) ≡ true
  pub enough_free : size ≤ z.free_size
  pub entry_left : z.allocations < z.max_allocations
  pub in_table : i < z.slots
  pub free : is_free (z.table i).kind ≡ true
  pub fits : required_size aligned size ≤ (z.table i).size

-- Large blocks have zones of their own; for others, no zone of the list has room.
abbrev pub NeedsZone : Heap → (size : ℕ) → Type 0
NeedsZone h size =
    (same_type (zone_type_for_size size) large ≡ true)
    ⊎ ((n i : ℕ) (z : Zone) → get_elem? h.zones n ≡ some z → HasRoom h.aligned size z i → ⊥)

candidate-none :
    (aligned : Bool) (size i : ℕ) (z : Zone)
    → candidate aligned size z ≡ none
    → HasRoom aligned size z i
    → ⊥
unfolding candidate
candidate-none aligned size i z e r =
    let right_type = r.right_type in
    let enough_free = r.enough_free in
    let entry_left = r.entry_left in
    let free = r.free in
    let fits = r.fits in
    let p : Allocation → Bool = λ a. is_free a.kind && leb (required_size aligned size) a.size in
    let miss : find p z.table z.slots 0 ≡ none = ground arith in
    let bad : p (z.table i) ≡ false =
      find-none p z.table z.slots 0 i miss (omega arith) (omega (arith, r.in_table)) in
    ground arith

both-none :
    (aligned : Bool) (size : ℕ) (z : Zone) (zs : List Zone)
    → search_zones aligned size (z ∷ zs) ≡ none
    → (candidate aligned size z ≡ none) × (search_zones aligned size zs ≡ none)
unfolding search_zones
both-none aligned size z zs e = elim (Option-cases (candidate aligned size z)) [
  | inr (k, hit) ↦ absurd (ground arith)
  | inl miss ↦ elim (Option-cases (search_zones aligned size zs)) [
    | inr (f, hit) ↦ absurd (ground arith)
    | inl missing ↦ (miss, missing)
  ]
]

-- A search that finds nothing has been past zones without room only.
pub search_zones-none :
    (aligned : Bool) (size : ℕ) (zs : List Zone) (n i : ℕ) (z : Zone)
    → search_zones aligned size zs ≡ none
    → get_elem? zs n ≡ some z
    → HasRoom aligned size z i
    → ⊥
search_zones-none aligned size [] n i z e at r = absurd (cc)
search_zones-none aligned size (z' ∷ zs) zero i z e at r =
    let same : z' ≡ z = some_inj at in
    candidate-none aligned size i z' (both-none aligned size z' zs e).0
      (subst (λ y. HasRoom aligned size y i) (sym same) r)
search_zones-none aligned size (z' ∷ zs) (suc n) i z e at r =
    search_zones-none aligned size zs n i z (both-none aligned size z' zs e).1 at r
