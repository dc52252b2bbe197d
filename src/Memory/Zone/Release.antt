-- ===== src/Memory/Zone/Release.antt =====
-- `__heap_freeAllocation` keeps the zone valid.
use firedrake.Common.{ℕ, ◌<◌, ◌≡◌, ◌≢◌, refl, true, false, arith}
use firedrake.Memory.Zone.{Zone, Allocation, free, is_used, free_allocation}
use firedrake.Memory.Zone.Table.{set_entry_self, set_entry_ne, count-set_entry, count_le}
use firedrake.Memory.Zone.Retag.{tagged, retag-Blocks, retag-AllApart}
use firedrake.Memory.Zone.Inv.{live, spare, IsValid}

used-live : (a : Allocation) → is_used a.kind ≡ true → live a ≡ true
used-live a u = ground arith

used-not-spare : (a : Allocation) → is_used a.kind ≡ true → spare a ≡ false
used-not-spare a u = ground arith

module _ (z : Zone) (i : ℕ) (v : IsValid z) (hi : i < z.slots)
    (u : is_used (z.table i).kind ≡ true) where
  -- `__heap_freeAllocation` of a used entry keeps the zone valid.
  pub free_allocation-IsValid : IsValid (free_allocation z i)
  unfolding free_allocation
  free_allocation-IsValid =
      let lv = used-live (z.table i) u in
      let ns = used-not-spare (z.table i) u in
      let lives = count-set_entry live z.table i (tagged free (z.table i)) z.slots hi in
      let spares = count-set_entry spare z.table i (tagged free (z.table i)) z.slots hi in
      record {
        blocks = retag-Blocks z z.table i free lv v.blocks;
        apart = retag-AllApart z z.table i free lv v.apart;
        end_word = v.end_word;
        tiny_span = v.tiny_span;
        slots_small = v.slots_small;
        live_count = ground (arith, lives, lv, v.live_count);
        free_count =
            ground (arith, spares, ns, v.free_count, count_le spare z.table z.slots, v.slots_small);
      }

  pub freed_here : is_used ((free_allocation z i).table i).kind ≡ false
  unfolding free_allocation
  freed_here = rw (set_entry_self z.table i (tagged free (z.table i))) refl

  pub freed_other : (k : ℕ) → k ≢ i → (free_allocation z i).table k ≡ z.table k
  unfolding free_allocation
  freed_other k ne = set_entry_ne z.table i (tagged free (z.table i)) k ne

pub freed_same :
    (z : Zone) (i : ℕ)
    → ((free_allocation z i).slots ≡ z.slots)
      × ((free_allocation z i).begin ≡ z.begin)
      × ((free_allocation z i).end ≡ z.end)
      × ((free_allocation z i).type ≡ z.type)
      × ((free_allocation z i).pages ≡ z.pages)
unfolding free_allocation
freed_same z i = (refl, refl, refl, refl, refl)
