-- ===== src/Memory/Heap/Freeing.antt =====
-- `hfree` in the zone that has the block: the entry that is freed, and the zone that is given back.
use firedrake.Common.{
  ℕ, ◌+◌, ◌-◌, ◌*◌, ◌<◌, ◌≤◌, ◌≡◌, ◌≢◌, refl, sym, ap, ◌∙◌, ◌⊎◌, inl, inr, true, false, some, List,
  arith, add32, ◌==◌, get_elem?, set, Bool-cases, ℕ_discrete, some_inj,
}
use mathlib.Core.Path.{subst}
use firedrake.Memory.Zone.{Zone, Allocation, is_used, page_size, free_allocation}
use firedrake.Memory.Zone.Table.{count_kinds, count-two, count_le}
use firedrake.Memory.Zone.Inv.{spare, start, IsValid}
use firedrake.Memory.Zone.Release.{free_allocation-IsValid, freed_here, freed_other, freed_same}
use firedrake.Memory.Zone.Defragment.{defragment, defragment-IsValid, defragment-same}
use firedrake.Memory.Heap.{Heap, Freed, remove_zone, free_in}
use firedrake.Memory.Heap.Held.{
  UsedAt, Held, AllSound, used_bounds, used-live, member_or_outside, Held-member, IsSound-member,
  moved, Held-pos,
}
use firedrake.Memory.Heap.Change.{
  AllSound-set, Held-set_back, Held-set_keep, AllSound-remove_zone, Held-remove_back,
  Held-remove_keep, removed_outside, get_set,
}

around : {s m s' m' : ℕ} → s ≡ s' → 0 < m → 0 < m' → (s + m ≤ s') ⊎ (s' + m' ≤ s) → ⊥
around same pos pos' apart = ground arith

-- Two blocks of a zone that begin at one address are one entry.
one_entry :
    (z : Zone) (k i : ℕ)
    → IsValid z
    → k < z.slots
    → i < z.slots
    → is_used (z.table k).kind ≡ true
    → is_used (z.table i).kind ≡ true
    → start z (z.table k) ≡ start z (z.table i)
    → k ≡ i
one_entry z k i v hk hi uk ui same = elim (ℕ_discrete k i) [
  | yes e ↦ e
  | no ne ↦
      let lk = used-live (z.table k) uk in
      let li = used-live (z.table i) ui in
      let (_, _, _, _, pos) = v.blocks k hk lk in
      let (_, _, _, _, pos') = v.blocks i hi li in
      let apart = v.apart k i hk hi ne lk li in absurd (around same pos pos' apart)
]

start_moved :
    (z z' : Zone) (a : Allocation) → z'.type ≡ z.type → z'.begin ≡ z.begin → start z' a ≡ start z a
start_moved z z' a type begin = rw (type, begin) refl

-- What a call that returns has to give: the block at the pointer is not in use any more, all others
-- are as before, the zones are sound, and pages that were given back hold no block in use.
pub record Released (before : List Zone) (pointer : ℕ) (r : Freed) : Type 0 where
  pub sound : AllSound r.heap.zones
  pub unlocked : r.heap.locked ≡ false
  pub gone : (c : ℕ) → Held r.heap.zones pointer c → ⊥
  pub kept : (q d : ℕ) → Held before q d → q ≢ pointer → Held r.heap.zones q d
  pub no_other : (q d : ℕ) → Held r.heap.zones q d → Held before q d
  pub clear :
      (a pages : ℕ)
      → r.returned ≡ some (a, pages)
      → (q d : ℕ) → Held r.heap.zones q d
      → (q + d ≤ a) ⊎ (a + pages * page_size ≤ q)

module _ (zones : List Zone) (n i p : ℕ) (z : Zone) (sound : AllSound zones)
    (member : get_elem? zones n ≡ some z) (hi : i < z.slots) (ui : is_used (z.table i).kind ≡ true)
    (at : start z (z.table i) ≡ p) where
  valid : IsValid z
  valid = (IsSound-member zones n z sound member).0

  -- where the counts say that one entry is in use, it is the pointer's
  last_one : z.allocations ≡ add32 z.free_allocations 1 → (q d : ℕ) → UsedAt z q d → q ≡ p
  last_one e q d u = elim (ℕ_discrete u.entry i) [
    | yes same ↦ sym u.at ∙ ap (λ k. start z (z.table k)) same ∙ at
    | no other ↦
        let kinds = count_kinds z.table z.slots in
        let two =
          count-two (λ a. is_used a.kind) z.table u.entry i z.slots u.in_table hi other u.used ui in
        let low = count_le spare z.table z.slots in
        let small = valid.slots_small in
        let lives = valid.live_count in let spares = valid.free_count in absurd (omega arith)
  ]

  block : UsedAt z p (z.table i).size
  block = record { entry = i; in_table = hi; used = ui; at = at; bytes = refl }

  -- the zone that is left where it is not destroyed
  z' : Zone
  z' = defragment (free_allocation z i)

  same_fields :
      (z'.slots ≡ z.slots)
      × (z'.begin ≡ z.begin)
      × (z'.end ≡ z.end)
      × (z'.type ≡ z.type)
      × (z'.pages ≡ z.pages)
      × (z'.table ≡ (free_allocation z i).table)
  unfolding z'
  same_fields =
      let (a, b, c, d, e, f) = defragment-same (free_allocation z i) in
      let (a', b', c', d', e') = freed_same z i in (a ∙ a', b ∙ b', c ∙ c', d ∙ d', e ∙ e', f)

  entry_freed : is_used (z'.table i).kind ≡ false
  entry_freed =
      ap (λ (t : ℕ → Allocation). is_used (t i).kind) same_fields.5 ∙ freed_here z i valid hi ui

  entry_same : (k : ℕ) → k ≢ i → z'.table k ≡ z.table k
  entry_same k ne =
      ap (λ (t : ℕ → Allocation). t k) same_fields.5 ∙ freed_other z i valid hi ui k ne

  keep : (q d : ℕ) → q ≢ p → UsedAt z q d → UsedAt z' q d
  keep q d ne u =
      let (slots, begin, end, type, pages, _) = same_fields in
      let other : u.entry ≢ i = λ e. ne (sym u.at ∙ ap (λ k. start z (z.table k)) e ∙ at) in
      moved z z' u.entry q d type begin slots (entry_same u.entry other) u.in_table u.used u.at
        u.bytes

  only : (q d : ℕ) → UsedAt z' q d → UsedAt z q d × (q ≢ p)
  only q d u =
      let (slots, begin, end, type, pages, _) = same_fields in
      let other : u.entry ≢ i =
        λ e. ground (arith, entry_freed, ap (λ k. is_used (z'.table k).kind) e, u.used) in
      let same = entry_same u.entry other in
      let old =
        moved z' z u.entry q d (sym type) (sym begin) (sym slots) (sym same) u.in_table u.used u.at
          u.bytes in
      let hk = subst (λ m. u.entry < m) slots u.in_table in
      let uk = subst (λ (a : Allocation). is_used a.kind ≡ true) same u.used in
      let there : start z (z.table u.entry) ≡ q =
        ap (start z) (sym same) ∙ sym (start_moved z z' (z'.table u.entry) type begin) ∙ u.at in
      (old, λ e. other (one_entry z u.entry i valid hk hi uk ui (there ∙ e ∙ sym at)))

  -- the pointer lies in the zone
  not_outside : (c : ℕ) → 0 < c → (p + c + page_size ≤ z.begin) ⊎ (z.end ≤ p) → ⊥
  not_outside c pos out =
      let (low, high, pos', _) =
        used_bounds z p (z.table i).size (IsSound-member zones n z sound member) block in
      ground arith

  kept_sound : AllSound (set zones n z')
  unfolding z'
  kept_sound =
      let (slots, begin, end, type, pages, _) = same_fields in
      AllSound-set zones n z z' member begin end pages
        (defragment-IsValid (free_allocation z i) (free_allocation-IsValid z i valid hi ui)) sound

  kept_gone : (c : ℕ) → Held (set zones n z') p c → ⊥
  kept_gone c h =
      let (slots, begin, end, type, pages, _) = same_fields in
      let pos = Held-pos (set zones n z') p c kept_sound h in
      elim (member_or_outside (set zones n z') n z' p c kept_sound (get_set zones n z z' member)
        h) [ inl u ↦ (only p c u).1 refl | inr out ↦ not_outside c pos (ground arith) ]

  removed_gone : (c : ℕ) → Held (remove_zone zones n) p c → ⊥
  removed_gone c h =
      not_outside c (Held-pos (remove_zone zones n) p c (AllSound-remove_zone zones n sound) h)
        (removed_outside zones n z p c sound member h)

  -- the zone's pages, from the table's on
  removed_clear :
      (q d : ℕ)
      → Held (remove_zone zones n) q d
      → (q + d ≤ z.begin - page_size) ⊎ (z.begin - page_size + z.pages * page_size ≤ q)
  removed_clear q d h =
      let (_, low, span) = IsSound-member zones n z sound member in
      let out = removed_outside zones n z q d sound member h in ground arith

pub free_in-Released :
    (h : Heap) (n i p : ℕ) (z : Zone)
    → AllSound h.zones
    → h.locked ≡ false
    → get_elem? h.zones n ≡ some z
    → i < z.slots
    → is_used (z.table i).kind ≡ true
    → start z (z.table i) ≡ p
    → Released h.zones p (free_in h n i z)
unfolding free_in z'
free_in-Released h n i p z sound unlocked member hi ui at =
    let zs = h.zones in
    elim (Bool-cases (z.allocations == add32 z.free_allocations 1)) [
      | inl last ↦ rw last (record {
        sound = AllSound-remove_zone zs n sound;
        unlocked = unlocked;
        gone = removed_gone zs n i p z sound member hi ui at;
        kept = λ q d held ne. elim (Held-remove_keep zs n z q d member held) [
          | inl u ↦ absurd (ne (last_one zs n i p z sound member hi ui at (ground arith) q d u))
          | inr k ↦ k
        ];
        no_other = λ q d held. Held-remove_back zs n q d held;
        clear = λ a pages e q d held.
            let same : (z.begin - page_size, z.pages) ≡ (a, pages) = some_inj e in
            subst (λ (r : ℕ × ℕ). (q + d ≤ r.0) ⊎ (r.0 + r.1 * page_size ≤ q)) same
              (removed_clear zs n i p z sound member hi ui at q d held);
      })
      | inr more ↦ rw more (record {
        sound = kept_sound zs n i p z sound member hi ui at;
        unlocked = unlocked;
        gone = kept_gone zs n i p z sound member hi ui at;
        kept = λ q d held ne.
            Held-set_keep zs n z (z' zs n i p z sound member hi ui at) q d member
              (keep zs n i p z sound member hi ui at q d ne) held;
        no_other = λ q d held.
            elim (Held-set_back zs n (z' zs n i p z sound member hi ui at) q d held) [
              | inl u ↦
                  Held-member zs n z q d member (only zs n i p z sound member hi ui at q d u).0
              | inr before ↦ before
            ];
        clear = λ a pages e q d held. absurd (cc);
      })
    ]
