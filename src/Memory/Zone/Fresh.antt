-- ===== src/Memory/Zone/Fresh.antt =====
-- `__heap_createZoneForSize` makes a valid zone.
use firedrake.Common.{
  ℕ, zero, suc, ◌+◌, ◌-◌, ◌*◌, ◌^◌, ◌<◌, ◌≤◌, ◌≡◌, refl, sym, ap, ◌∙◌, inl, inr, true, false, arith,
  word, mul32, dec_lt,
}
use mathlib.Core.Path.{subst}
use firedrake.Memory.Zone.{
  Zone, ZoneType, Allocation, tiny, small, medium, large, free, is_tiny, page_size, page_count,
  blank, fill_tiny, fill_plain, fresh_zone, zone_at, zone_type_for_size, pages_for,
}
use firedrake.Memory.Zone.Table.{count}
use firedrake.Memory.Zone.Inv.{live, spare, IsBlock, IsValid}
use firedrake.Memory.Zone.Fill.{Filled, fill_tiny-Filled, fill_tiny-first}

-- Where the zone of `__heap_createZoneForSize` may lie: it has a page for the table and its pages.
abbrev pub Fits : ZoneType → (zone_address size : ℕ) → Type 0
Fits type zone_address size = zone_address + (pages_for type size + 1) * page_size < word

fill_plain-first : (begin size k : ℕ) → live (fill_plain begin size k) ≡ true → k ≡ 0
unfolding fill_plain
fill_plain-first begin size k l = ground arith

fill_plain-count :
    (begin size n : ℕ)
    → (count live (fill_plain begin size) (suc n) ≡ 1)
      × (count spare (fill_plain begin size) (suc n) ≡ 1)
unfolding count fill_plain
fill_plain-count begin size zero = (refl, refl)
fill_plain-count begin size (suc n) =
    let (l, s) = fill_plain-count begin size n in (ground (arith, l), ground (arith, s))

fill_plain-at :
    (begin size : ℕ) → fill_plain begin size 0 ≡ record { kind = free; size = size; place = begin }
unfolding fill_plain
fill_plain-at begin size = refl

plain_count :
    (z : Zone) (size : ℕ)
    → z.table ≡ fill_plain z.begin size
    → 0 < z.slots
    → (count live z.table z.slots ≡ 1) × (count spare z.table z.slots ≡ 1)
plain_count z size table some =
    let n : suc (z.slots - 1) ≡ z.slots = omega arith in
    rw (table, ← n) (fill_plain-count z.begin size (z.slots - 1))

plain-IsValid :
    (z : Zone) (size : ℕ)
    → is_tiny z.type ≡ false
    → z.table ≡ fill_plain z.begin size
    → z.end ≡ z.begin + size
    → 0 < size
    → z.end < word
    → 0 < z.slots
    → z.slots < 2 ^ 16
    → z.allocations ≡ 1
    → z.free_allocations ≡ 1
    → IsValid z
plain-IsValid z size type table end pos lt some few one one' =
    let first : (i : ℕ) → live (z.table i) ≡ true → i ≡ 0 = λ i l.
      fill_plain-first z.begin size i (ap (λ (f : ℕ → Allocation). live (f i)) (sym table) ∙ l) in
    let entry : z.table 0 ≡ record { kind = free; size = size; place = z.begin } =
      ap (λ (f : ℕ → Allocation). f 0) table ∙ fill_plain-at z.begin size in
    record {
      blocks = λ i h l.
          let block : IsBlock z (z.table 0) =
            rw (entry, type) (omega arith, omega arith, omega arith, omega arith, pos) in
          subst (λ m. IsBlock z (z.table m)) (sym (first i l)) block;
      apart = λ i j hi hj ne li lj. absurd (ne (first i li ∙ sym (first j lj)));
      end_word = lt;
      tiny_span = λ e. absurd (cc);
      slots_small = few;
      live_count = one ∙ sym (plain_count z size table some).0;
      free_count = one' ∙ sym (plain_count z size table some).1;
    }

tiny-IsValid :
    (z : Zone)
    → z.type ≡ tiny
    → (z.table, z.allocations) ≡ fill_tiny z.slots 0 0 page_size (λ k. blank 0)
    → z.free_allocations ≡ z.allocations
    → z.end ≡ z.begin + page_size
    → z.end < word
    → z.slots < 2 ^ 16
    → IsValid z
unfolding count
tiny-IsValid z type made same end lt few =
    let f : Filled z.slots 0 0 page_size (λ k. blank 0) (z.table, z.allocations) =
      subst (Filled z.slots 0 0 page_size (λ k. blank 0)) (sym made)
        (fill_tiny-Filled z.slots 0 0 page_size (λ k. blank 0) (omega arith)) in
    record {
      blocks = λ i h l.
          let (low, high, pos, size) = f.good i (omega arith) (omega arith) l in
          rw type (omega arith, omega arith, size, omega arith, pos);
      apart = λ i j hi hj ne li lj. elim (dec_lt i j) [
        | yes before ↦
            let o = f.ordered i j (omega arith) before (omega arith) li lj in
            rw type (inl (omega arith))
        | no behind ↦
            let o = f.ordered j i (omega arith) (omega arith) (omega arith) lj li in
            rw type (inr (omega arith))
      ];
      end_word = lt;
      tiny_span = λ e. omega arith;
      slots_small = few;
      live_count = ground (arith, f.lives);
      free_count = ground (arith, f.spares);
    }

pub large-pos : (size : ℕ) → zone_type_for_size size ≡ large → 0 < size
unfolding zone_type_for_size
large-pos size e = ground arith

pub zone_at-IsValid :
    (type : ZoneType) (zone_address size : ℕ)
    → (type ≡ large → 0 < size)
    → size < 2 ^ 31
    → Fits type zone_address size
    → IsValid (zone_at type zone_address size)
unfolding zone_at pages_for
zone_at-IsValid tiny zone_address size pos lt fits =
    tiny-IsValid _ refl refl refl (omega arith) (omega arith) (omega arith)
zone_at-IsValid small zone_address size pos lt fits =
    plain-IsValid _ (5 * page_size) refl refl (omega arith) (omega arith) (omega arith)
      (omega arith) (omega arith) refl refl
zone_at-IsValid medium zone_address size pos lt fits =
    plain-IsValid _ (20 * page_size) refl refl (omega arith) (omega arith) (omega arith)
      (omega arith) (omega arith) refl refl
zone_at-IsValid large zone_address size pos lt fits =
    let some = pos refl in
    plain-IsValid _ (mul32 (page_count size) page_size) refl refl (omega arith) (omega arith)
      (omega arith) (omega arith) (omega arith) refl refl

-- what the caller uses of a new zone: its first entry is free and large enough
unfoldable pub Usable : Zone → ℕ → Type 0
Usable z size = (0 < z.slots) × (spare (z.table 0) ≡ true) × (size ≤ (z.table 0).size)

pub zone_at-Usable :
    (type : ZoneType) (zone_address size : ℕ)
    → type ≡ zone_type_for_size size
    → size < 2 ^ 31
    → Fits type zone_address size
    → Usable (zone_at type zone_address size) size
unfolding zone_at pages_for zone_type_for_size Usable fill_plain
zone_at-Usable tiny zone_address size e lt fits =
    let first = fill_tiny-first 997 page_size (λ k. blank 0) (omega arith) (omega arith) in
    (omega arith, rw first refl, rw first (ground arith))
zone_at-Usable small zone_address size e lt fits = (omega arith, refl, ground arith)
zone_at-Usable medium zone_address size e lt fits = (omega arith, refl, ground arith)
zone_at-Usable large zone_address size e lt fits = (omega arith, refl, ground arith)

-- every entry of a new zone that counts is free
pub zone_at-counts :
    (type : ZoneType) (zone_address size : ℕ)
    → (zone_at type zone_address size).allocations
      ≡ (zone_at type zone_address size).free_allocations
unfolding zone_at
zone_at-counts type zone_address size = refl

pub zone_at-span :
    (type : ZoneType) (zone_address size : ℕ)
    → Fits type zone_address size
    → let z = zone_at type zone_address size in z.begin + z.pages * page_size ≡ z.end + page_size
unfolding zone_at
zone_at-span type zone_address size fits = omega arith

pub zone_at-begin :
    (type : ZoneType) (zone_address size : ℕ)
    → Fits type zone_address size
    → (zone_at type zone_address size).begin ≡ zone_address + page_size
unfolding zone_at
zone_at-begin type zone_address size fits = omega arith

-- The zone that `__heap_createZoneForSize` makes for less than 2 ^ 31 bytes is valid, where its pages fit
-- the address space.
pub fresh_zone-IsValid :
    (zone_address size : ℕ)
    → size < 2 ^ 31
    → Fits (zone_type_for_size size) zone_address size
    → IsValid (fresh_zone zone_address size)
unfolding fresh_zone
fresh_zone-IsValid zone_address size lt fits =
    zone_at-IsValid (zone_type_for_size size) zone_address size (λ e. large-pos size e) lt fits
