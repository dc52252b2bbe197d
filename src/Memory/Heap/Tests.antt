-- ===== src/Memory/Heap/Tests.antt =====
-- The theorems on the heap at a heap with one zone.
use firedrake.Common.{ℕ, ◌≡◌, refl, inl, inr, true, false, some, [], ◌∷◌, arith}
use firedrake.Memory.Zone.{small, fresh_zone, zone_at, zone_type_for_size, pages_for, used_pointer}
use firedrake.Memory.Zone.Example.{base, zone, with_block, zone-IsValid, given, slot}
use firedrake.Memory.Heap.{Heap, Freed, returns, panics, halloc, hfree}
use firedrake.Memory.Heap.Held.{Held, SeparateFrom, AllSound, IsSound}
use firedrake.Memory.Heap.Region.{Region, no_use}
use firedrake.Memory.Heap.Alloc.{Gives, halloc_lem}
use firedrake.Memory.Heap.Freeing.{Released}
use firedrake.Memory.Heap.Release.{hfree_lem, hfree_unknown}

-- the kernel's heap with one zone, in which nothing is in use
abbrev unused_heap : Heap
unused_heap = record { aligned = true; secure = true; locked = false; zones = zone ∷ [] }

-- and with a block of 100 bytes in use
abbrev used_heap : Heap
used_heap = record { aligned = true; secure = true; locked = false; zones = with_block ∷ [] }

zone-IsSound : IsSound zone
unfolding fresh_zone zone_at zone_type_for_size pages_for
zone-IsSound = (zone-IsValid, omega arith, omega arith)

unused-AllSound : AllSound unused_heap.zones
unfolding AllSound SeparateFrom
unused-AllSound = (zone-IsSound, tt, tt)

used-AllSound : AllSound used_heap.zones
unfolding AllSound SeparateFrom
used-AllSound =
    let (_, low, span) = zone-IsSound in
    (
      (
        given.valid,
        rw given.same_begin low,
        rw (given.same_begin, given.same_end, given.same_pages) span,
      ),
      tt,
      tt,
    )

abbrev pointer : ℕ
pointer = used_pointer zone 0

held : Held used_heap.zones pointer (with_block.table 0).size
unfolding Held
held =
    inl (record {
      entry = 0;
      in_table = slot;
      used = given.now_used;
      at = given.pointer;
      bytes = refl;
    })

-- a large block needs a zone of its own
region : Region used_heap.zones 5000 (some 0x200000)
unfolding Region SeparateFrom fresh_zone zone_at zone_type_for_size pages_for
region = (omega arith, (inr (rw given.same_end (omega arith)), tt))

halloc_lem_example : Gives used_heap 5000 (some 0x200000) (halloc used_heap 5000 (some 0x200000))
halloc_lem_example =
    halloc_lem used_heap 5000 (some 0x200000) used-AllSound refl (omega arith) region

hfree_lem_example :
    (r : Freed) × (hfree used_heap pointer ≡ returns r) × Released used_heap.zones pointer r
hfree_lem_example = hfree_lem used_heap pointer (with_block.table 0).size used-AllSound refl held

unknown : (c : ℕ) → Held unused_heap.zones pointer c → ⊥
unfolding Held zone_type_for_size fresh_zone
unknown c (inl u) = no_use small base 100 pointer c zone-IsValid u
unknown c (inr h) = h

hfree_unknown_example : hfree unused_heap pointer ≡ panics
hfree_unknown_example = hfree_unknown unused_heap pointer unused-AllSound refl unknown
