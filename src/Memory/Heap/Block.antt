-- ===== src/Memory/Heap/Block.antt =====
-- `halloc` in a zone of the list: the choice of an entry, and the block that it becomes.
use firedrake.Common.{
  ℕ, suc, ◌+◌, ◌^◌, ◌<◌, ◌≤◌, ◌≡◌, ◌≢◌, refl, sym, ap, ◌∙◌, ◌⊎◌, inl, inr, Bool, true, false, ◌&&◌,
  some, List, [], ◌∷◌, arith, leb, ◌==◌, if◌then◌else◌, get_elem?, set, length, length-set,
  Option-cases, ℕ_discrete, some_inj,
}
use mathlib.Core.Path.{subst}
use firedrake.Memory.Zone.{
  Zone, Allocation, is_free, is_used, find, required_size, use_allocation, used_pointer,
}
use firedrake.Memory.Zone.Table.{find-some}
use firedrake.Memory.Zone.Inv.{spare, start}
use firedrake.Memory.Zone.Use.{Given, use_allocation-Given, required-ge}
use firedrake.Memory.Heap.{Heap, returns, Allocated, candidate, search_zones, use_zone}
use firedrake.Memory.Heap.Held.{
  UsedAt, Held, IsSound, AllSound, used_bounds, used-live, member_or_outside, Held-member,
  IsSound-member, moved,
}
use firedrake.Memory.Heap.Change.{AllSound-set, Held-set_back, Held-set_keep, Held-set_new}

-- What a call that returns has to give: a block in use of at least the size, not at 0, apart from every
-- block in use before; those are still in use, and there are no others; and the zones are sound.
pub record Block (before : List Zone) (size : ℕ) (r : Allocated) : Type 0 where
  pub sound : AllSound r.heap.zones
  pub unlocked : r.heap.locked ≡ false
  pub not_null : 0 < r.pointer
  pub capacity : ℕ
  pub holds : Held r.heap.zones r.pointer capacity
  pub room : size ≤ capacity
  pub clears : r.cleared ≤ capacity
  pub kept : (q d : ℕ) → Held before q d → Held r.heap.zones q d
  pub apart : (q d : ℕ) → Held before q d → (q + d ≤ r.pointer) ⊎ (r.pointer + capacity ≤ q)
  pub no_other : (q d : ℕ) → Held r.heap.zones q d → q ≢ r.pointer → Held before q d

-- one entry of zone `n` is usable for the size
pub record Choice (zones : List Zone) (size n i : ℕ) : Type 0 where
  pub zone : Zone
  pub in_list : get_elem? zones n ≡ some zone
  pub in_table : i < zone.slots
  pub is_spare : spare (zone.table i) ≡ true
  pub fits : size ≤ (zone.table i).size

candidate-some :
    (aligned : Bool) (size i : ℕ) (z : Zone)
    → size < 2 ^ 31
    → candidate aligned size z ≡ some i
    → (i < z.slots) × (spare (z.table i) ≡ true) × (size ≤ (z.table i).size)
unfolding candidate
candidate-some aligned size i z lt e =
    let p : Allocation → Bool = λ a. is_free a.kind && leb (required_size aligned size) a.size in
    let hit : find p z.table z.slots 0 ≡ some i = ground arith in
    let (_, high, good) = find-some p z.table z.slots 0 i hit in
    let enough = required-ge aligned size lt in (omega arith, ground arith, ground arith)

pub search_zones-Choice :
    (aligned : Bool) (size : ℕ) (zs : List Zone) (found : ℕ × ℕ)
    → size < 2 ^ 31
    → search_zones aligned size zs ≡ some found
    → Choice zs size found.0 found.1
unfolding search_zones
search_zones-Choice aligned size [] found lt e = absurd (cc)
search_zones-Choice aligned size (z ∷ zs) found lt e =
    elim (Option-cases (candidate aligned size z)) [
      | inr (i, hit) ↦
          let same : (0, i) ≡ found = some_inj (ground arith) in
          let (h, sp, fits) = candidate-some aligned size i z lt hit in
          subst (λ (f : ℕ × ℕ). Choice (z ∷ zs) size f.0 f.1) same
            (record { zone = z; in_list = refl; in_table = h; is_spare = sp; fits = fits })
      | inl miss ↦ elim (Option-cases (search_zones aligned size zs)) [
        | inl missing ↦ absurd (ground arith)
        | inr (f, hit) ↦
            let same : (suc f.0, f.1) ≡ found = some_inj (ground arith) in
            let there = search_zones-Choice aligned size zs f lt hit in
            subst (λ (f : ℕ × ℕ). Choice (z ∷ zs) size f.0 f.1) same
              (record {
                zone = there.zone;
                in_list = there.in_list;
                in_table = there.in_table;
                is_spare = there.is_spare;
                fits = there.fits;
              })
      ]
    ]

module _ (zones : List Zone) (n i size : ℕ) (z z' : Zone) (sound : AllSound zones)
    (member : get_elem? zones n ≡ some z) (hi : i < z.slots) (sp : spare (z.table i) ≡ true)
    (g : Given z i size z') where
  new_block : UsedAt z' (used_pointer z i) (z'.table i).size
  new_block = record {
    entry = i;
    in_table = rw g.same_slots hi;
    used = g.now_used;
    at = g.pointer;
    bytes = refl;
  }

  sound' : IsSound z'
  sound' =
      let (v, low, span) = IsSound-member zones n z sound member in
      let begin = g.same_begin in
      let end = g.same_end in
      let pages = g.same_pages in (g.valid, rw begin low, rw (begin, end, pages) span)

  keep : (q d : ℕ) → UsedAt z q d → UsedAt z' q d
  keep q d u =
      moved z z' u.entry q d g.type_same g.same_begin g.same_slots (g.kept u.entry u.used)
        u.in_table u.used u.at u.bytes

  only : (q d : ℕ) → UsedAt z' q d → q ≢ used_pointer z i → UsedAt z q d
  only q d u ne = elim (ℕ_discrete u.entry i) [
    | yes e ↦ absurd (ne (sym (u.at) ∙ ap (λ k. start z' (z'.table k)) e ∙ g.pointer))
    | no other ↦
        moved z' z u.entry q d (sym g.type_same) (sym g.same_begin) (sym g.same_slots)
          (sym (g.no_other u.entry other u.used)) u.in_table u.used u.at u.bytes
  ]

  not_spare :
      (k : ℕ)
      → is_used (z.table k).kind ≡ true
      → is_used (z.table k).kind ≡ is_used (z.table i).kind
      → ⊥
  not_spare k u e = ground arith

  around :
      {s m q d p c : ℕ}
      → s ≡ q
      → m ≡ d
      → p ≡ c
      → (x : ℕ) → (s + m ≤ p) ⊎ (p + x ≤ s)
      → (q + d ≤ c) ⊎ (c + x ≤ q)
  around a b e x f = ground arith

  apart_new :
      (q d : ℕ)
      → Held zones q d
      → (q + d ≤ used_pointer z i) ⊎ (used_pointer z i + (z'.table i).size ≤ q)
  apart_new q d h = elim (member_or_outside zones n z q d sound member h) [
    | inl u ↦
        let k = u.entry in
        let other : k ≢ i = λ e. not_spare k u.used (ap (λ m. is_used (z.table m).kind) e) in
        let same = g.kept k u.used in
        let there : is_used (z'.table k).kind ≡ true = rw same u.used in
        let hk : k < z'.slots = rw g.same_slots u.in_table in
        let hi' : i < z'.slots = rw g.same_slots hi in
        let apart =
          g.valid.apart k i hk hi' other (used-live (z'.table k) there)
            (used-live (z'.table i) g.now_used) in
        let at : start z' (z'.table k) ≡ q = rw (same, g.type_same, g.same_begin) u.at in
        let bytes : (z'.table k).size ≡ d = rw same u.bytes in
        around at bytes g.pointer (z'.table i).size apart
    | inr out ↦
        let (low, high, pos, _) =
          used_bounds z' (used_pointer z i) (z'.table i).size sound' new_block in
        let begin = g.same_begin in let end = g.same_end in ground arith
  ]

pub use_zone-Block :
    (h : Heap) (size : ℕ) (zones : List Zone) (n i : ℕ)
    → h.locked ≡ false
    → size < 2 ^ 31
    → AllSound zones
    → Choice zones size n i
    → (r : Allocated) × (use_zone h size zones n i ≡ returns r)
      × Block zones size r
      × (length r.heap.zones ≡ length zones)
unfolding use_zone
use_zone-Block h size zones n i unlocked lt sound c =
    let (v, low, _) = IsSound-member zones n c.zone sound c.in_list in
    let g = use_allocation-Given c.zone i size v c.in_table c.is_spare h.aligned lt c.fits in
    let z' = use_allocation h.aligned c.zone i size in
    let p = used_pointer c.zone i in
    let b = new_block zones n i size c.zone z' sound c.in_list c.in_table c.is_spare g in
    let (_, _, _, high) =
      used_bounds z' p (z'.table i).size
        (sound' zones n i size c.zone z' sound c.in_list c.in_table c.is_spare g) b in
    let not_zero : (p == 0) ≡ false = ground arith in
    let zones' = set zones n z' in
    (
      record {
        pointer = p;
        cleared = if h.secure then size else 0;
        heap = record h { zones = zones' };
      },
      rw (c.in_list, not_zero, use_zone) refl,
      record {
        sound =
            AllSound-set zones n c.zone z' c.in_list g.same_begin g.same_end g.same_pages g.valid
              sound;
        unlocked = unlocked;
        not_null = omega arith;
        capacity = (z'.table i).size;
        holds = Held-set_new zones n c.zone z' p (z'.table i).size c.in_list b;
        room = g.room;
        clears = let room = g.room in ground arith;
        kept = λ q d held.
            Held-set_keep zones n c.zone z' q d c.in_list
              (keep zones n i size c.zone z' sound c.in_list c.in_table c.is_spare g q d) held;
        apart = apart_new zones n i size c.zone z' sound c.in_list c.in_table c.is_spare g;
        no_other = λ q d held ne. elim (Held-set_back zones n z' q d held) [
          | inl u ↦
              Held-member zones n c.zone q d c.in_list
                (only zones n i size c.zone z' sound c.in_list c.in_table c.is_spare g q d u ne)
          | inr before ↦ before
        ];
      },
      length-set zones n z',
    )
