-- ===== src/Memory/Heap/Region.antt =====
-- `halloc` in a zone that is made for it.
use firedrake.Common.{ℕ, ◌^◌, ◌<◌, ◌≡◌, refl, inl, inr, false, Option, none, some, List, ◌∷◌, arith}
use firedrake.Memory.Zone.{Zone, ZoneType, is_used, zone_type_for_size, zone_at, fresh_zone}
use firedrake.Memory.Zone.Table.{count_kinds, count-pos}
use firedrake.Memory.Zone.Inv.{IsValid}
use firedrake.Memory.Zone.Fresh.{
  Fits, Usable, zone_at-Usable, zone_at-counts, zone_at-begin, zone_at-span, fresh_zone-IsValid,
}
use firedrake.Memory.Heap.{Heap, returns, Allocated, use_zone}
use firedrake.Memory.Heap.Held.{UsedAt, Held, SeparateFrom, AllSound}
use firedrake.Memory.Heap.Block.{Block, use_zone-Block}

-- nothing is in use in a new zone
pub no_use :
    (type : ZoneType) (a size p c : ℕ)
    → IsValid (zone_at type a size)
    → UsedAt (zone_at type a size) p c
    → ⊥
no_use type a size p c v u =
    let z = zone_at type a size in
    let kinds = count_kinds z.table z.slots in
    let lives = v.live_count in
    let spares = v.free_count in
    let same = zone_at-counts type a size in
    let more = count-pos (λ b. is_used b.kind) z.table u.entry z.slots u.in_table u.used in
    omega arith

-- what `mm_alloc` promises of the address for a new zone: the pages fit the address space, and they
-- do not overlap those of the zones in the list
unfoldable pub Region : List Zone → (size : ℕ) → Option ℕ → Type 0
Region zs size none = Unit
Region zs size (some a) =
    Fits (zone_type_for_size size) a size × SeparateFrom (fresh_zone a size) zs

pub fresh-Block :
    (h : Heap) (a size : ℕ)
    → h.locked ≡ false
    → size < 2 ^ 31
    → AllSound h.zones
    → Region h.zones size (some a)
    → (r : Allocated) × (use_zone h size (fresh_zone a size ∷ h.zones) 0 0 ≡ returns r)
      × Block h.zones size r
unfolding Region fresh_zone Usable AllSound Held
fresh-Block h a size unlocked lt sound (fits, separate) =
    let type = zone_type_for_size size in
    let z = zone_at type a size in
    let v : IsValid z = fresh_zone-IsValid a size lt fits in
    let (inside, sp, room) = zone_at-Usable type a size refl lt fits in
    let begin = zone_at-begin type a size fits in
    let (r, e, b, _) =
      use_zone-Block h size (z ∷ h.zones) 0 0 unlocked lt
        ((v, omega arith, zone_at-span type a size fits), separate, sound)
        (record { zone = z; in_list = refl; in_table = inside; is_spare = sp; fits = room }) in
    (
      r,
      e,
      record {
        sound = b.sound;
        unlocked = b.unlocked;
        not_null = b.not_null;
        capacity = b.capacity;
        holds = b.holds;
        room = b.room;
        clears = b.clears;
        kept = λ q d held. b.kept q d (inr held);
        apart = λ q d held. b.apart q d (inr held);
        no_other = λ q d held ne. elim (b.no_other q d held ne) [
          | inl u ↦ absurd (no_use type a size q d v u)
          | inr before ↦ before
        ];
      },
    )
