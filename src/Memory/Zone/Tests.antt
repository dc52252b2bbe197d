-- ===== src/Memory/Zone/Tests.antt =====
-- The theorems on zones at a new zone for allocations of up to 256 bytes.
use firedrake.Common.{◌≡◌, true, arith, if◌then◌else◌}
use firedrake.Memory.Zone.{use_allocation}
use firedrake.Memory.Zone.Use.{Given, use_allocation-Given}
use firedrake.Memory.Zone.Defragment.{defragment, due, defragment_lem}
use firedrake.Memory.Zone.Example.{
  zone, with_block, zone-IsValid, has_slots, first_spare, first_size,
}

use_allocation-Given_example : Given zone 0 100 (use_allocation true zone 0 100)
use_allocation-Given_example =
    use_allocation-Given zone 0 100 zone-IsValid has_slots first_spare true (omega arith) first_size

defragment_lem_example :
    defragment with_block
    ≡ (if due with_block then record with_block { changes = 0 } else with_block)
defragment_lem_example = defragment_lem with_block
