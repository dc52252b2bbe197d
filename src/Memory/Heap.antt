-- ===== src/Memory/Heap.antt =====
-- sys/memory/heap.c, the heap: its list of zones, and `halloc` and `hfree` on it.
pub mod Held
pub mod Change
pub mod Find
pub mod Need
pub mod Block
pub mod Region
pub mod Alloc
pub mod Freeing
pub mod Release
mod Tests
use firedrake.Common.{
  ℕ, zero, suc, ◌+◌, ◌-◌, ◌*◌, Bool, true, false, Option, none, some, List, [], ◌∷◌, ◌++◌, map, not,
  ◌&&◌, ltb, leb, ◌==◌, if◌then◌else◌, add32, get_elem?, set,
}
use firedrake.Memory.Zone.{
  Zone, ZoneType, Allocation, large, is_free, same_type, page_size, zone_type_for_size, fresh_zone,
  find, find_with_pointer, required_size, use_allocation, used_pointer, free_allocation,
}
use firedrake.Memory.Zone.Defragment.{defragment}

-- `heap_t`: the flags kHeapFlagAligned and kHeapFlagSecure, the spinlock, and the list from `firstZone`.
pub record Heap : Type 0 where
  pub aligned : Bool
  pub secure : Bool
  pub locked : Bool
  pub zones : List Zone

-- A call spins on a held lock, panics (also by an assertion), or returns.
pub data Outcome {ℓ} (A : Type ℓ) : Type ℓ where
  spins : Outcome A
  panics : Outcome A
  returns : A → Outcome A

-- `heap_create`, given the page from `mm_alloc`, or none
pub heap_create : Option ℕ → (aligned secure : Bool) → Option Heap
heap_create none aligned secure = none
heap_create (some page) aligned secure =
    some (record { aligned = aligned; secure = secure; locked = false; zones = [] })

-- `heap_destroy` at address `heap`: what it gives to `mm_free`, in order, as addresses and pages
pub heap_destroy : (heap : ℕ) → Heap → List (ℕ × ℕ)
heap_destroy heap h = map (λ (z : Zone). (z.begin - page_size, z.pages)) h.zones ++ (heap, 1) ∷ []

-- The entry that `__heap_zoneForSize` finds in a zone of the list.
pub candidate : Bool → (size : ℕ) → Zone → Option ℕ
candidate aligned size z =
    if same_type z.type (zone_type_for_size size)
      && leb size z.free_size
      && ltb z.allocations z.max_allocations
    then find (λ a. is_free a.kind && leb (required_size aligned size) a.size) z.table z.slots 0
    else none

-- the `while` of `__heap_zoneForSize`: the place of the zone in the list, and of the entry in the zone
pub search_zones : Bool → (size : ℕ) → List Zone → Option (ℕ × ℕ)
search_zones aligned size [] = none
search_zones aligned size (z ∷ zs) =
    let rest = search_zones aligned size zs in
    elim (candidate aligned size z) [
      | some i ↦ some (0, i)
      | none ↦ elim rest [ none ↦ none | some found ↦ some (suc found.0, found.1) ]
    ]

-- `__heap_zoneForSize`, given what `mm_alloc` returns: the list of zones, with a new one in front if
-- no zone has room, and the places of the zone and the entry. Without memory the assertion fails.
pub zone_for_size : Heap → (size : ℕ) → Option ℕ → Option (List Zone × ℕ × ℕ)
zone_for_size h size region =
    let in_list =
      if same_type (zone_type_for_size size) large
      then none
      else search_zones h.aligned size h.zones in
    elim in_list [
      | some found ↦ some (h.zones, found.0, found.1)
      | none ↦ elim region [
        | none ↦ none
        | some zone_address ↦ some (fresh_zone zone_address size ∷ h.zones, 0, 0)
      ]
    ]

-- What `halloc` returns: the pointer and the heap. Its `memset` sets `cleared` bytes from the pointer on.
pub record Allocated : Type 0 where
  pub pointer : ℕ
  pub cleared : ℕ
  pub heap : Heap

-- `halloc` once the zone is chosen
pub use_zone : Heap → (size : ℕ) → List Zone → (n i : ℕ) → Outcome Allocated
use_zone h size zones n i = elim (get_elem? zones n) [
  | none ↦ panics
  | some z ↦
      let pointer = used_pointer z i in
      if pointer == 0
      then panics
      else returns (record {
        pointer = pointer;
        cleared = if h.secure then size else 0;
        heap = record h { zones = set zones n (use_allocation h.aligned z i size) };
      })
]

-- `halloc`; `region` is what `mm_alloc` returns, if it is called
pub halloc : Heap → (size : ℕ) → (region : Option ℕ) → Outcome Allocated
halloc h size region = if h.locked then spins else elim (zone_for_size h size region) [
  | none ↦ panics
  | some found ↦ use_zone h size found.0 found.1 found.2
]

-- `__heap_findZoneWithAllocation`: the places of the zone and of the entry. The first zone around the
-- pointer decides.
pub find_zone : List Zone → (pointer : ℕ) → Option (ℕ × ℕ)
find_zone [] pointer = none
find_zone (z ∷ zs) pointer =
    let rest = find_zone zs pointer in
    if leb z.begin pointer && ltb pointer z.end
    then elim (find_with_pointer z pointer) [ none ↦ none | some i ↦ some (0, i) ]
    else elim rest [ none ↦ none | some found ↦ some (suc found.0, found.1) ]

-- `__heap_destroyZone`: the list without the zone
unfoldable pub remove_zone : List Zone → ℕ → List Zone
remove_zone [] n = []
remove_zone (z ∷ zs) zero = zs
remove_zone (z ∷ zs) (suc n) = z ∷ remove_zone zs n

-- What `hfree` leaves: the heap, and the zone whose pages it gave to `mm_free`.
pub record Freed : Type 0 where
  pub returned : Option (ℕ × ℕ)
  pub heap : Heap

pub free_in : Heap → (n i : ℕ) → Zone → Freed
free_in h n i z =
    if z.allocations == add32 z.free_allocations 1
    then record {
      returned = some (z.begin - page_size, z.pages);
      heap = record h { zones = remove_zone h.zones n };
    }
    else record {
      returned = none;
      heap = record h { zones = set h.zones n (defragment (free_allocation z i)) };
    }

-- `hfree`
pub hfree : Heap → (pointer : ℕ) → Outcome Freed
hfree h pointer = if h.locked then spins else elim (find_zone h.zones pointer) [
  | none ↦ panics
  | some found ↦ elim (get_elem? h.zones found.0) [
    | none ↦ panics
    | some z ↦ returns (free_in h found.0 found.1 z)
  ]
]
