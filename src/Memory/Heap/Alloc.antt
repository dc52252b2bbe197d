-- ===== src/Memory/Heap/Alloc.antt =====
-- What `halloc` promises.
use firedrake.Memory.Heap.Need.{NeedsZone, search_zones-none}
use firedrake.Common.{
  length, Bool-cases, ◌⊎◌, ℕ, ◌^◌, ◌<◌, ◌≡◌, refl, sym, ◌∙◌, inl, inr, false, Option, none, some,
  List, ◌∷◌, arith, if◌then◌else◌, Option-cases,
}
use mathlib.Core.Path.{subst}
use firedrake.Memory.Zone.{Zone, large, same_type, zone_type_for_size, fresh_zone}
use firedrake.Memory.Heap.{
  Heap, Outcome, spins, panics, returns, Allocated, search_zones, zone_for_size, use_zone, halloc,
}
use firedrake.Memory.Heap.Held.{AllSound}
use firedrake.Memory.Heap.Block.{Block, Choice, search_zones-Choice, use_zone-Block}
use firedrake.Memory.Heap.Region.{Region, fresh-Block}

-- A call panics only if it needs a new zone and there is no memory for one, and returns a block
-- otherwise. It adds a zone only if it needs one.
pub Gives : Heap → (size : ℕ) → Option ℕ → Outcome Allocated → Type 0
Gives h size region spins = ⊥
Gives h size region panics = NeedsZone h size × (region ≡ none)
Gives h size region (returns r) =
    Block h.zones size r × ((length r.heap.zones ≡ length h.zones) ⊎ NeedsZone h size)

gives :
    (h : Heap) (size : ℕ) (region : Option ℕ) (o : Outcome Allocated)
    → (r : Allocated) × (o ≡ returns r)
      × Block h.zones size r
      × ((length r.heap.zones ≡ length h.zones) ⊎ NeedsZone h size)
    → Gives h size region o
unfolding Gives
gives h size region o (r, e, b, zones) = subst (Gives h size region) (sym e) (b, zones)

in_list : Heap → (size : ℕ) → Option (ℕ × ℕ)
in_list h size =
    if same_type (zone_type_for_size size) large then none else search_zones h.aligned size h.zones

zone_for_size-hit :
    (h : Heap) (size : ℕ) (region : Option ℕ) (f : ℕ × ℕ)
    → in_list h size ≡ some f
    → zone_for_size h size region ≡ some (h.zones, f.0, f.1)
unfolding zone_for_size in_list
zone_for_size-hit h size region f hit = rw (hit, zone_for_size) refl

zone_for_size-none :
    (h : Heap) (size : ℕ) → in_list h size ≡ none → zone_for_size h size none ≡ none
unfolding zone_for_size in_list
zone_for_size-none h size miss = rw (miss, zone_for_size) refl

zone_for_size-new :
    (h : Heap) (size a : ℕ)
    → in_list h size ≡ none
    → zone_for_size h size (some a) ≡ some (fresh_zone a size ∷ h.zones, 0, 0)
unfolding zone_for_size in_list
zone_for_size-new h size a miss = rw (miss, zone_for_size) refl

in_list-Choice :
    (h : Heap) (size : ℕ) (f : ℕ × ℕ)
    → size < 2 ^ 31
    → in_list h size ≡ some f
    → Choice h.zones size f.0 f.1
unfolding in_list
in_list-Choice h size f lt hit = search_zones-Choice h.aligned size h.zones f lt (ground arith)

in_list-NeedsZone : (h : Heap) (size : ℕ) → in_list h size ≡ none → NeedsZone h size
unfolding in_list
in_list-NeedsZone h size miss = elim (Bool-cases (same_type (zone_type_for_size size) large)) [
  | inl big ↦ inl big
  | inr other ↦
      let none_found : search_zones h.aligned size h.zones ≡ none = ground arith in
      inr (λ n i z. search_zones-none h.aligned size h.zones n i z none_found)
]

halloc-some :
    (h : Heap) (size : ℕ) (region : Option ℕ) (zones : List Zone) (n i : ℕ)
    → h.locked ≡ false
    → zone_for_size h size region ≡ some (zones, n, i)
    → halloc h size region ≡ use_zone h size zones n i
unfolding halloc
halloc-some h size region zones n i unlocked e = simp (unlocked, e, halloc) refl

halloc-none :
    (h : Heap) (size : ℕ) (region : Option ℕ)
    → h.locked ≡ false
    → zone_for_size h size region ≡ none
    → halloc h size region ≡ panics
unfolding halloc
halloc-none h size region unlocked e = simp (unlocked, e, halloc) refl

missing :
    (h : Heap) (size : ℕ) (region : Option ℕ)
    → AllSound h.zones
    → h.locked ≡ false
    → size < 2 ^ 31
    → Region h.zones size region
    → in_list h size ≡ none
    → Gives h size region (halloc h size region)
unfolding Gives
missing h size none sound unlocked lt fresh miss =
    subst (Gives h size none)
      (sym (halloc-none h size none unlocked (zone_for_size-none h size miss)))
      (in_list-NeedsZone h size miss, refl)
missing h size (some a) sound unlocked lt fresh miss =
    let e =
      halloc-some h size (some a) (fresh_zone a size ∷ h.zones) 0 0 unlocked
        (zone_for_size-new h size a miss) in
    let (r, e', b) = fresh-Block h a size unlocked lt sound fresh in
    gives h size (some a) _ (r, e ∙ e', b, inr (in_list-NeedsZone h size miss))

-- `halloc` on a sound heap whose lock is free, for less than 2 ^ 31 bytes, where the pages that
-- `mm_alloc` gives, if any, fit the address space and overlap no zone: it panics only where it needs a
-- new zone, because the block is large or no zone of the list has room, and `mm_alloc` has no memory.
-- Otherwise it returns a block of the size, not at 0 and apart from all blocks in use; those stay as they
-- are, no others appear, the zones are sound, the lock is free, the bytes that it clears are the block's,
-- and there are as many zones as before unless it needs a new one.
pub halloc_lem :
    (h : Heap) (size : ℕ) (region : Option ℕ)
    → AllSound h.zones
    → h.locked ≡ false
    → size < 2 ^ 31
    → Region h.zones size region
    → Gives h size region (halloc h size region)
halloc_lem h size region sound unlocked lt fresh = elim (Option-cases (in_list h size)) [
  | inr (f, hit) ↦
      let e =
        halloc-some h size region h.zones f.0 f.1 unlocked
          (zone_for_size-hit h size region f hit) in
      let (r, e', b, same) =
        use_zone-Block h size h.zones f.0 f.1 unlocked lt sound (in_list-Choice h size f lt hit) in
      gives h size region _ (r, e ∙ e', b, inl same)
  | inl miss ↦ missing h size region sound unlocked lt fresh miss
]
