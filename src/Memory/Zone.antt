-- ===== src/Memory/Zone.antt =====
-- sys/memory/heap.c, one zone: the table of allocations in its first page, and the operations on it.
pub mod Table
pub mod Inv
pub mod Retag
pub mod Split
pub mod Use
pub mod Release
pub mod Defragment
pub mod Fill
pub mod Fresh
pub mod Example
mod Tests
use firedrake.Common.{
  ℕ, zero, suc, ◌+◌, ◌-◌, ◌*◌, ◌/◌, ◌%◌, ◌^◌, Bool, true, false, Option, none, some, not, ◌&&◌, ltb,
  leb, ◌==◌, if◌then◌else◌, word, add32, sub32, mul32, minimum,
}

-- `heap_zone_type_t`
pub data ZoneType : Type 0 where
  tiny small medium large : ZoneType

-- `kZoneAllocationTypeFree`, `kZoneAllocationTypeUsed`, `kZoneAllocationTypeUnused`
pub data Kind : Type 0 where
  free used unused : Kind

abbrev pub is_tiny : ZoneType → Bool
is_tiny tiny = true
is_tiny _ = false

abbrev pub same_type : ZoneType → ZoneType → Bool
same_type tiny tiny = true
same_type small small = true
same_type medium medium = true
same_type large large = true
same_type _ _ = false

abbrev pub is_free : Kind → Bool
is_free free = true
is_free _ = false

abbrev pub is_used : Kind → Bool
is_used used = true
is_used _ = false

abbrev pub is_unused : Kind → Bool
is_unused unused = true
is_unused _ = false

-- `zone_tiny_allocation_t` and `zone_allocation_t`. `place` is the first's `offset` from the zone's
-- begin, and the second's `pointer`.
pub record Allocation : Type 0 where
  pub kind : Kind
  pub size : ℕ
  pub place : ℕ

-- `heap_zone_t`. The entries from `firstAllocation` up to `lastAllocation` are `table 0` up to
-- `table slots`; the links to other zones are the heap's list.
pub record Zone : Type 0 where
  pub type : ZoneType
  pub changes : ℕ
  pub begin : ℕ
  pub end : ℕ
  pub free_size : ℕ
  pub pages : ℕ
  pub max_allocations : ℕ
  pub free_allocations : ℕ
  pub allocations : ℕ
  pub slots : ℕ
  pub table : ℕ → Allocation

abbrev pub page_size : ℕ
page_size = 4096

-- `sizeof(heap_zone_t)`, and of an entry
abbrev pub header_size : ℕ
header_size = 52

abbrev pub entry_size : ZoneType → ℕ
entry_size t = if is_tiny t then 4 else 12

-- `VM_PAGE_COUNT`
abbrev pub page_count : ℕ → ℕ
page_count x = add32 x 4095 / page_size

-- `__heap_zoneTypeForSize`
unfoldable pub zone_type_for_size : ℕ → ZoneType
zone_type_for_size size =
    if ltb 2048 size
    then large
    else if ltb 256 size
    then medium
    else if ltb 64 size
    then small
    else tiny

-- the `switch` of `__heap_createZoneForSize`
unfoldable pub pages_for : ZoneType → ℕ → ℕ
pages_for tiny size = 1
pages_for small size = 5
pages_for medium size = 20
pages_for large size = page_count size

-- the fields of an entry have 8 and 16 bits in a tiny zone, and 32 elsewhere
abbrev pub size_mod : ZoneType → ℕ
size_mod t = if is_tiny t then 2 ^ 8 else word

abbrev pub place_mod : ZoneType → ℕ
place_mod t = if is_tiny t then 2 ^ 16 else word

-- the address that an entry stands for
abbrev pub address : Zone → Allocation → ℕ
address z a = if is_tiny z.type then add32 z.begin a.place else a.place

-- an unused entry; the code leaves its size alone, and reads it only after it has set it
abbrev pub blank : ℕ → Allocation
blank place = record { kind = unused; size = 0; place = place }

pub set_entry : (ℕ → Allocation) → ℕ → Allocation → ℕ → Allocation
set_entry t i a k = if k == i then a else t k

-- The loop that fills the table of a tiny zone, from entry `i` on: what is left of the zone is cut
-- into entries of 255 bytes. Returned are the table and the number of entries made.
pub fill_tiny : ℕ → (i offset size_left : ℕ) → (ℕ → Allocation) → (ℕ → Allocation) × ℕ
fill_tiny zero i offset size_left t = (t, 0)
fill_tiny (suc rounds) i offset size_left t = elim (ltb 0 size_left) [
  | true ↦
      let size = minimum size_left 255 in
      let made : Allocation = record { kind = free; size = size; place = offset } in
      let rest =
        fill_tiny rounds (i + 1) ((offset + size) % 2 ^ 16) (size_left - size)
          (set_entry t i made) in
      (rest.0, suc rest.1)
  | false ↦ fill_tiny rounds (i + 1) offset size_left (set_entry t i (blank 0xFFFF))
]

-- the table of any other zone: one free entry
pub fill_plain : (begin size : ℕ) → ℕ → Allocation
fill_plain begin size k =
    if k == 0 then record { kind = free; size = size; place = begin } else blank 0

-- the zone that `__heap_createZoneForSize` makes, once it has the type and the address from `mm_alloc`
unfoldable pub zone_at : ZoneType → (zone_address size : ℕ) → Zone
zone_at type zone_address size =
    let pages = pages_for type size in
    let begin = add32 zone_address page_size in
    let free_size = mul32 pages page_size in
    let max_allocations = (page_size - header_size) / entry_size type in
    let slots =
      (max_allocations * entry_size type - header_size + entry_size type - 1) / entry_size type in
    let filled =
      if is_tiny type
      then fill_tiny slots 0 0 free_size (λ k. blank 0)
      else (fill_plain begin free_size, 1) in
    record {
      type = type;
      changes = 0;
      begin = begin;
      end = add32 begin free_size;
      free_size = free_size;
      pages = pages + 1;
      max_allocations = max_allocations;
      free_allocations = filled.1;
      allocations = filled.1;
      slots = slots;
      table = filled.0;
    }

-- `__heap_createZoneForSize`
unfoldable pub fresh_zone : (zone_address size : ℕ) → Zone
fresh_zone zone_address size = zone_at (zone_type_for_size size) zone_address size

-- A loop over the table from entry `i` on, that stops at the first entry with a property.
pub find : (Allocation → Bool) → (ℕ → Allocation) → (rounds i : ℕ) → Option ℕ
find p t zero i = none
find p t (suc rounds) i = let rest = find p t rounds (i + 1) in if p (t i) then some i else rest

-- `__heap_zoneFindAllocationWithPointer`
unfoldable pub find_with_pointer : Zone → ℕ → Option ℕ
find_with_pointer z pointer =
    find (λ a. (pointer == address z a) && is_used a.kind) z.table z.slots 0

-- `__heap_zoneGetUnusedAllocation`
pub get_unused : Zone → Option ℕ
get_unused z = find (λ a. is_unused a.kind) z.table z.slots 0

-- `size + padding + kHeapAllocationExtraPadding`
pub required_size : Bool → ℕ → ℕ
required_size aligned size = add32 (add32 size (if aligned then size % 4 else 0)) 16

-- Entry `i` is used whole.
pub use_whole : Zone → ℕ → Zone
use_whole z i = record z {
  table = set_entry z.table i (record (z.table i) { kind = used });
  free_allocations = sub32 z.free_allocations 1;
}

-- The first `required` bytes of entry `i` are used, and entry `j` stands for the rest.
pub use_split : Zone → (i j required : ℕ) → Zone
use_split z i j required =
    let a = z.table i in
    record z {
      table =
          set_entry
            (set_entry z.table j (record {
              kind = free;
              size = (a.size - required) % size_mod z.type;
              place = (a.place + required) % place_mod z.type;
            }))
            i (record { kind = used; size = required % size_mod z.type; place = a.place });
      free_allocations = sub32 (add32 z.free_allocations 1) 1;
      allocations = add32 z.allocations 1;
    }

-- what `__heap_useAllocation` does to the zone: entry `i` is used, and what it does not need becomes
-- a free entry, if the table has room for it
pub use_allocation : Bool → Zone → (i size : ℕ) → Zone
use_allocation aligned z i size =
    let required = required_size aligned size in
    if ltb required (z.table i).size
    then elim (get_unused (use_whole z i)) [
      | none ↦ use_whole z i
      | some j ↦ use_split z i j required
    ]
    else use_whole z i

-- the pointer that it returns
pub used_pointer : Zone → ℕ → ℕ
used_pointer z i = address z (z.table i)

-- `__heap_freeAllocation`
pub free_allocation : Zone → ℕ → Zone
free_allocation z i =
    let a = z.table i in
    record z {
      table = set_entry z.table i (record a { kind = free });
      free_size = add32 z.free_size a.size;
      free_allocations = add32 z.free_allocations 1;
      changes = add32 z.changes 1;
    }
