-- ===== src/Memory/Zone/Example.antt =====
-- A zone of heap.c to try the theorems at: a new one, and the same with a block of 100 bytes in use.
use firedrake.Common.{ℕ, ◌≡◌, ◌<◌, ◌≤◌, refl, true, arith}
use firedrake.Memory.Zone.{
  Zone, zone_at, fresh_zone, zone_type_for_size, pages_for, fill_plain, use_allocation,
}
use firedrake.Memory.Zone.Inv.{IsValid, spare}
use firedrake.Memory.Zone.Use.{Given, use_allocation-Given}
use firedrake.Memory.Zone.Fresh.{fresh_zone-IsValid}

abbrev pub base : ℕ
base = 0x100000

pub zone-IsValid : IsValid (fresh_zone base 100)
unfolding pages_for zone_type_for_size
zone-IsValid = fresh_zone-IsValid base 100 (omega arith) (omega arith)

-- a zone with 20480 free bytes
abbrev pub zone : Zone
zone = fresh_zone base 100

pub has_slots : 0 < zone.slots
unfolding fresh_zone zone_at zone_type_for_size
has_slots = omega arith

pub first_spare : spare (zone.table 0) ≡ true
unfolding fresh_zone zone_at zone_type_for_size fill_plain
first_spare = refl

pub first_size : 100 ≤ (zone.table 0).size
unfolding fresh_zone zone_at zone_type_for_size fill_plain pages_for
first_size = omega arith

abbrev pub with_block : Zone
with_block = use_allocation true zone 0 100

pub given : Given zone 0 100 with_block
given =
    use_allocation-Given zone 0 100 zone-IsValid has_slots first_spare true (omega arith) first_size

pub slot : 0 < with_block.slots
slot = rw given.same_slots has_slots
