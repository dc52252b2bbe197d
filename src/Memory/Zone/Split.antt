-- ===== src/Memory/Zone/Split.antt =====
-- A free entry of a zone is cut in two: what is used, and what is left.
use firedrake.Common.{
  ℕ, ◌+◌, ◌-◌, ◌%◌, ◌<◌, ◌≡◌, ◌≢◌, refl, sym, ap, ◌∙◌, ◌⊎◌, inl, inr, true, arith, ◌==◌,
  if◌then◌else◌, ℕ_discrete,
}
use mathlib.Core.Path.{subst}
use native.Mathlib.Nat.{mod-eq_of_lt, le_refl}
use firedrake.Memory.Zone.{
  Zone, Allocation, free, used, is_used, is_unused, size_mod, place_mod, set_entry, use_split,
}
use firedrake.Memory.Zone.Table.{set_entry_self, set_entry_ne, count, count-set_entry, count_le}
use firedrake.Memory.Zone.Inv.{live, spare, Apart, Blocks, AllApart, Refines, Apart-by, IsValid}

abbrev pub front : Allocation → ℕ → Allocation
front a required = record { kind = used; size = required; place = a.place }

abbrev pub rest : Allocation → ℕ → Allocation
rest a required = record { kind = free; size = a.size - required; place = a.place + required }

module _ (z : Zone) (i j required : ℕ) (v : IsValid z) (hi : i < z.slots) (hj : j < z.slots)
    (sp : spare (z.table i) ≡ true) (un : is_unused (z.table j).kind ≡ true)
    (fits : required < (z.table i).size) (pos : 0 < required) where
  abbrev pub split_table : ℕ → Allocation
  split_table =
      set_entry (set_entry z.table j (rest (z.table i) required)) i (front (z.table i) required)

  spare_live : live (z.table i) ≡ true
  spare_live = ground arith

  apart_entries : i ≢ j
  apart_entries e = let same = ap (λ k. (z.table k).kind) e in ground arith

  -- Nothing is cut off by the widths of the fields.
  pub use_split_table : (use_split z i j required).table ≡ split_table
  unfolding use_split
  use_split_table =
      let (low, high, size_fits, place_fits, _) = v.blocks i hi spare_live in
      let size_kept : required % size_mod z.type ≡ required = mod-eq_of_lt (ground arith) in
      let rest_kept : ((z.table i).size - required) % size_mod z.type
          ≡ (z.table i).size - required =
        mod-eq_of_lt (ground arith) in
      let place_kept : ((z.table i).place + required) % place_mod z.type
          ≡ (z.table i).place + required =
        mod-eq_of_lt (ground (arith, v.tiny_span, v.end_word)) in
      rw (size_kept, rest_kept, place_kept)

  split_at :
      (k : ℕ)
      → (k ≡ i) × (split_table k ≡ front (z.table i) required)
        ⊎ (k ≡ j) × (split_table k ≡ rest (z.table i) required)
        ⊎ (k ≢ i) × (k ≢ j) × (split_table k ≡ z.table k)
  split_at k = elim (ℕ_discrete k i) [
    | yes e ↦ inl (
      e,
      rw e (
          set_entry_self (set_entry z.table j (rest (z.table i) required)) i
            (front (z.table i) required)),
    )
    | no ne ↦
        let past =
          set_entry_ne (set_entry z.table j (rest (z.table i) required)) i
            (front (z.table i) required) k ne in
        elim (ℕ_discrete k j) [
          | yes e ↦
              inr (inl (e, past ∙ rw e (set_entry_self z.table j (rest (z.table i) required))))
          | no ne' ↦
              inr (inr (ne, ne', past ∙ set_entry_ne z.table j (rest (z.table i) required) k ne'))
        ]
  ]

  -- the entry whose block an entry's block comes from
  parent : ℕ → ℕ
  parent k = if k == j then i else k

  parent_i : (k : ℕ) → k ≡ i → parent k ≡ i
  unfolding parent
  parent_i k e = ground (arith, apart_entries)

  parent_j : (k : ℕ) → k ≡ j → parent k ≡ i
  unfolding parent
  parent_j k e = ground arith

  parent_other : (k : ℕ) → k ≢ j → parent k ≡ k
  unfolding parent
  parent_other k ne = ground arith

  split-Blocks : Blocks z split_table
  split-Blocks k lt l =
      let (low, high, size_fits, place_fits, _) = v.blocks i hi spare_live in
      elim (split_at k) [
        | inl (e, at) ↦ rw at (ground (arith, low, high, size_fits, place_fits))
        | inr (inl (e, at)) ↦
            rw at (ground (arith, low, high, size_fits, place_fits, v.tiny_span, v.end_word))
        | inr (inr (ne, ne', at)) ↦ rw at (v.blocks k lt (rw (← at) l))
      ]

  split-Refines : Refines z z.table split_table parent
  split-Refines k lt l = elim (split_at k) [
    | inl (e, at) ↦ rw (parent_i k e, at) (hi, spare_live, ground arith, ground arith)
    | inr (inl (e, at)) ↦ rw (parent_j k e, at) (hi, spare_live, ground arith, ground arith)
    | inr (inr (ne, ne', at)) ↦ rw (parent_other k ne', at) (lt, rw (← at) l, le_refl _, le_refl _)
  ]

  split_siblings :
      (k l : ℕ)
      → k ≢ l
      → parent k ≡ parent l
      → live (split_table k) ≡ true
      → live (split_table l) ≡ true
      → Apart z (split_table k) (split_table l)
  split_siblings k l ne same lk ll = elim (split_at k) [
    | inl (e, at) ↦ elim (split_at l) [
      | inl (e', at') ↦ absurd (ne (e ∙ sym e'))
      | inr (inl (e', at')) ↦ rw (at, at') (inl (ground arith))
      | inr (inr (ni, nj, _)) ↦ absurd (ni (sym (parent_other l nj) ∙ sym same ∙ parent_i k e))
    ]
    | inr (inl (e, at)) ↦ elim (split_at l) [
      | inl (e', at') ↦ rw (at, at') (inr (ground arith))
      | inr (inl (e', at')) ↦ absurd (ne (e ∙ sym e'))
      | inr (inr (ni, nj, _)) ↦ absurd (ni (sym (parent_other l nj) ∙ sym same ∙ parent_j k e))
    ]
    | inr (inr (ni, nj, _)) ↦ elim (split_at l) [
      | inl (e', at') ↦ absurd (ni (sym (parent_other k nj) ∙ same ∙ parent_i l e'))
      | inr (inl (e', at')) ↦ absurd (ni (sym (parent_other k nj) ∙ same ∙ parent_j l e'))
      | inr (inr (ni', nj', _)) ↦ absurd (ne (sym (parent_other k nj) ∙ same ∙ parent_other l nj'))
    ]
  ]

  split_counts :
      (count live split_table z.slots ≡ z.allocations + 1)
      × (count spare split_table z.slots ≡ z.free_allocations)
  split_counts =
      let left = set_entry z.table j (rest (z.table i) required) in
      let same : left i ≡ z.table i =
        set_entry_ne z.table j (rest (z.table i) required) i apart_entries in
      let lives = count-set_entry live z.table j (rest (z.table i) required) z.slots hj in
      let lives' = count-set_entry live left i (front (z.table i) required) z.slots hi in
      let spares = count-set_entry spare z.table j (rest (z.table i) required) z.slots hj in
      let spares' = count-set_entry spare left i (front (z.table i) required) z.slots hi in
      let kind = ap (λ (a : Allocation). a.kind) same in
      (ground (arith, v.live_count), ground (arith, v.free_count))

  use_split_counts :
      ((use_split z i j required).allocations ≡ z.allocations + 1)
      × ((use_split z i j required).free_allocations ≡ z.free_allocations)
  unfolding use_split
  use_split_counts = ground (
    arith,
    v.live_count,
    v.free_count,
    count_le live z.table z.slots,
    count_le spare z.table z.slots,
    v.slots_small,
  )

  pub use_split-IsValid : IsValid (use_split z i j required)
  unfolding use_split
  use_split-IsValid =
      let (lives, spares) = split_counts in
      let (lives', spares') = use_split_counts in
      record {
        blocks = subst (Blocks z) (sym use_split_table) split-Blocks;
        apart =
            subst (AllApart z) (sym use_split_table)
              (Apart-by z z.table split_table parent v.apart split-Refines split_siblings);
        end_word = v.end_word;
        tiny_span = v.tiny_span;
        slots_small = v.slots_small;
        live_count = lives' ∙ sym lives ∙ sym (ap (λ t. count live t z.slots) use_split_table);
        free_count = spares' ∙ sym spares ∙ sym (ap (λ t. count spare t z.slots) use_split_table);
      }

  pub split_front : (use_split z i j required).table i ≡ front (z.table i) required
  split_front =
      ap (λ t. t i) use_split_table
      ∙ set_entry_self (set_entry z.table j (rest (z.table i) required)) i
          (front (z.table i) required)

  pub split_other :
      (k : ℕ)
      → k ≢ i
      → (is_used ((use_split z i j required).table k).kind ≡ true)
        ⊎ (is_used (z.table k).kind ≡ true)
      → (use_split z i j required).table k ≡ z.table k
  split_other k ne u = elim (split_at k) [
    | inl (e, _) ↦ absurd (ne e)
    | inr (inl (e, at)) ↦
        let kind = ap (λ (a : Allocation). a.kind) (ap (λ t. t k) use_split_table ∙ at) in
        let old = ap (λ m. (z.table m).kind) e in
        elim u [ inl now ↦ ground arith | inr before ↦ ground arith ]
    | inr (inr (_, _, at)) ↦ ap (λ t. t k) use_split_table ∙ at
  ]

  pub use_split_geometry :
      ((use_split z i j required).slots ≡ z.slots)
      × ((use_split z i j required).begin ≡ z.begin)
      × ((use_split z i j required).end ≡ z.end)
      × ((use_split z i j required).type ≡ z.type)
      × ((use_split z i j required).pages ≡ z.pages)
  unfolding use_split
  use_split_geometry = (refl, refl, refl, refl, refl)
