-- ===== src/Memory/Heap/Find.antt =====
-- `__heap_findZoneWithAllocation` finds exactly the blocks in use.
use firedrake.Common.{
  ℕ, suc, ◌<◌, ◌≡◌, refl, sym, ◌∙◌, inl, inr, true, ◌&&◌, none, some, List, [], ◌∷◌, arith, ltb,
  leb, ◌==◌, get_elem?, Bool-cases, Option-cases, some_inj,
}
use mathlib.Core.Path.{subst}
use firedrake.Memory.Zone.{Zone, is_used, address, find_with_pointer}
use firedrake.Memory.Zone.Table.{find-some, find-none}
use firedrake.Memory.Zone.Inv.{start, IsValid, address-start}
use firedrake.Memory.Heap.{find_zone}
use firedrake.Memory.Heap.Held.{
  UsedAt, Held, AllSound, used_bounds, used-live, Held-outside, Held-pos,
}

used_address :
    (z : Zone) (k : ℕ)
    → IsValid z
    → k < z.slots
    → is_used (z.table k).kind ≡ true
    → address z (z.table k) ≡ start z (z.table k)
used_address z k v h u =
    address-start z (z.table k) v.end_word (v.blocks k h (used-live (z.table k) u))

found_entry :
    (z : Zone) (p i : ℕ)
    → IsValid z
    → find_with_pointer z p ≡ some i
    → (i < z.slots) × (is_used (z.table i).kind ≡ true) × (start z (z.table i) ≡ p)
unfolding find_with_pointer
found_entry z p i v e =
    let (_, high, good) =
      find-some (λ a. (p == address z a) && is_used a.kind) z.table z.slots 0 i e in
    let h : i < z.slots = omega arith in
    let u : is_used (z.table i).kind ≡ true = ground arith in
    let at : address z (z.table i) ≡ p = ground arith in (h, u, sym (used_address z i v h u) ∙ at)

no_entry : (z : Zone) (p c : ℕ) → IsValid z → find_with_pointer z p ≡ none → UsedAt z p c → ⊥
unfolding find_with_pointer
no_entry z p c v e u =
    let h = u.in_table in
    let used = u.used in
    let miss =
      find-none (λ a. (p == address z a) && is_used a.kind) z.table z.slots 0 u.entry e
        (omega arith) (omega arith) in
    let at = used_address z u.entry v u.in_table u.used ∙ u.at in ground arith

-- What the search gives: a zone of the list, and its entry in use at the pointer.
pub record Found (zs : List Zone) (p : ℕ) (found : ℕ × ℕ) : Type 0 where
  pub zone : Zone
  pub in_list : get_elem? zs found.0 ≡ some zone
  pub in_table : found.1 < zone.slots
  pub used : is_used (zone.table found.1).kind ≡ true
  pub at : start zone (zone.table found.1) ≡ p

pub find_zone-some :
    (zs : List Zone) (p : ℕ) (found : ℕ × ℕ)
    → AllSound zs
    → find_zone zs p ≡ some found
    → Found zs p found
unfolding find_zone AllSound
find_zone-some [] p found v e = absurd (cc)
find_zone-some (z ∷ zs) p found ((valid, low, _), s, v) e =
    elim (Bool-cases (leb z.begin p && ltb p z.end)) [
      | inl inside ↦ elim (Option-cases (find_with_pointer z p)) [
        | inl missing ↦ absurd (ground arith)
        | inr (i, hit) ↦
            let same : (0, i) ≡ found = some_inj (ground arith) in
            let (h, u, at) = found_entry z p i valid hit in
            subst (Found (z ∷ zs) p) same
              (record { zone = z; in_list = refl; in_table = h; used = u; at = at })
      ]
      | inr outside ↦ elim (Option-cases (find_zone zs p)) [
        | inl missing ↦ absurd (ground arith)
        | inr (f, hit) ↦
            let same : (suc f.0, f.1) ≡ found = some_inj (ground arith) in
            let there = find_zone-some zs p f v hit in
            subst (Found (z ∷ zs) p) same (record {
              zone = there.zone;
              in_list = there.in_list;
              in_table = there.in_table;
              used = there.used;
              at = there.at;
            })
      ]
    ]

pub find_zone-none :
    (zs : List Zone) (p c : ℕ) → AllSound zs → find_zone zs p ≡ none → Held zs p c → ⊥
unfolding find_zone AllSound Held
find_zone-none [] p c v e h = h
find_zone-none (z ∷ zs) p c (g, s, v) e h = elim (Bool-cases (leb z.begin p && ltb p z.end)) [
  | inl inside ↦ elim h [
    | inl u ↦ no_entry z p c g.0 (ground arith) u
    | inr k ↦ let pos = Held-pos zs p c v k in let out = Held-outside z zs p c s v k in ground arith
  ]
  | inr outside ↦ elim h [
    | inl u ↦ let (low, high, pos, _) = used_bounds z p c g u in ground arith
    | inr k ↦ find_zone-none zs p c v (ground arith) k
  ]
]
