-- ===== src/Memory/Heap/Held.antt =====
-- The blocks that a heap has handed out, and what holds of its list of zones.
use firedrake.Common.{
  ℕ, zero, suc, ◌+◌, ◌*◌, ◌<◌, ◌≤◌, ◌≡◌, sym, ◌⊎◌, inl, inr, true, some, List, [], ◌∷◌, arith,
  get_elem?, some_inj,
}
use mathlib.Core.Path.{subst}
use firedrake.Memory.Zone.{Zone, Allocation, is_used, page_size}
use firedrake.Memory.Zone.Inv.{live, start, IsValid}

-- An entry of the zone is in use, with `capacity` bytes at `pointer`.
pub record UsedAt (z : Zone) (pointer capacity : ℕ) : Type 0 where
  pub entry : ℕ
  pub in_table : entry < z.slots
  pub used : is_used (z.table entry).kind ≡ true
  pub at : start z (z.table entry) ≡ pointer
  pub bytes : (z.table entry).size ≡ capacity

-- A zone of the list has the block in use.
unfoldable pub Held : List Zone → (pointer capacity : ℕ) → Type 0
Held [] pointer capacity = ⊥
Held (z ∷ zs) pointer capacity = UsedAt z pointer capacity ⊎ Held zs pointer capacity

-- The two zones' pages, the table's page before `begin` included, do not overlap.
abbrev pub Separate : Zone → Zone → Type 0
Separate z w = (z.end + page_size ≤ w.begin) ⊎ (w.end + page_size ≤ z.begin)

unfoldable pub SeparateFrom : Zone → List Zone → Type 0
SeparateFrom z [] = Unit
SeparateFrom z (w ∷ zs) = Separate z w × SeparateFrom z zs

abbrev pub IsSound : Zone → Type 0
IsSound z = IsValid z × (page_size ≤ z.begin) × (z.begin + z.pages * page_size ≡ z.end + page_size)

unfoldable pub AllSound : List Zone → Type 0
AllSound [] = Unit
AllSound (z ∷ zs) = IsSound z × SeparateFrom z zs × AllSound zs

pub used-live : (a : Allocation) → is_used a.kind ≡ true → live a ≡ true
used-live a u = ground arith

-- A block in use lies in its zone and is not empty.
pub used_bounds :
    (z : Zone) (p c : ℕ)
    → IsSound z
    → UsedAt z p c
    → (z.begin ≤ p) × (p + c ≤ z.end) × (0 < c) × (page_size ≤ p)
used_bounds z p c (v, low, _) u =
    let (a, b, _, _, pos) = v.blocks u.entry u.in_table (used-live (z.table u.entry) u.used) in
    let at = u.at in
    let bytes = u.bytes in
    let first : z.begin ≤ p = rw (← at) a in
    let last : p + c ≤ z.end = rw (← at, ← bytes) b in
    let some : 0 < c = rw (← bytes) pos in (first, last, some, omega arith)

-- A block of the other zones lies before or behind a zone separate from them.
pub Held-outside :
    (z : Zone) (zs : List Zone) (p c : ℕ)
    → SeparateFrom z zs
    → AllSound zs
    → Held zs p c
    → (p + c + page_size ≤ z.begin) ⊎ (z.end ≤ p)
unfolding Held SeparateFrom AllSound
Held-outside z [] p c s v h = absurd h
Held-outside z (w ∷ zs) p c (s, ss) (g, _, v) (inl u) =
    let (a, b, pos, low) = used_bounds w p c g u in ground arith
Held-outside z (w ∷ zs) p c (s, ss) (_, _, v) (inr h) = Held-outside z zs p c ss v h

pub Separate-member :
    (w : Zone) (zs : List Zone) (n : ℕ) (z : Zone)
    → SeparateFrom w zs
    → get_elem? zs n ≡ some z
    → Separate w z
unfolding SeparateFrom
Separate-member w [] n z s e = absurd (cc)
Separate-member w (v ∷ zs) zero z (s, ss) e = subst (Separate w) (some_inj e) s
Separate-member w (v ∷ zs) (suc n) z (s, ss) e = Separate-member w zs n z ss e

pub IsSound-member :
    (zs : List Zone) (n : ℕ) (z : Zone) → AllSound zs → get_elem? zs n ≡ some z → IsSound z
unfolding AllSound
IsSound-member [] n z v e = absurd (cc)
IsSound-member (w ∷ zs) zero z (g, _, v) e = subst IsSound (some_inj e) g
IsSound-member (w ∷ zs) (suc n) z (g, _, v) e = IsSound-member zs n z v e

-- A held block is one of a given zone of the list, or lies outside that zone.
pub member_or_outside :
    (zs : List Zone) (n : ℕ) (z : Zone) (p c : ℕ)
    → AllSound zs
    → get_elem? zs n ≡ some z
    → Held zs p c
    → UsedAt z p c ⊎ ((p + c + page_size ≤ z.begin) ⊎ (z.end ≤ p))
unfolding Held AllSound
member_or_outside [] n z p c v e h = absurd h
member_or_outside (w ∷ zs) zero z p c (g, s, v) e (inl u) =
    inl (subst (λ y. UsedAt y p c) (some_inj e) u)
member_or_outside (w ∷ zs) zero z p c (g, s, v) e (inr h) = inr (
    subst (λ (y : Zone). (p + c + page_size ≤ y.begin) ⊎ (y.end ≤ p)) (some_inj e)
      (Held-outside w zs p c s v h))
member_or_outside (w ∷ zs) (suc n) z p c (g, s, v) e (inl u) =
    let apart = Separate-member w zs n z s e in
    let (a, b, pos, low) = used_bounds w p c g u in inr (ground arith)
member_or_outside (w ∷ zs) (suc n) z p c (g, s, v) e (inr h) = member_or_outside zs n z p c v e h

pub Held-member :
    (zs : List Zone) (n : ℕ) (z : Zone) (p c : ℕ)
    → get_elem? zs n ≡ some z
    → UsedAt z p c
    → Held zs p c
unfolding Held
Held-member [] n z p c e u = absurd (cc)
Held-member (w ∷ zs) zero z p c e u = inl (subst (λ y. UsedAt y p c) (sym (some_inj e)) u)
Held-member (w ∷ zs) (suc n) z p c e u = inr (Held-member zs n z p c e u)

pub Held-pos : (zs : List Zone) (p c : ℕ) → AllSound zs → Held zs p c → 0 < c
unfolding Held AllSound
Held-pos [] p c v h = absurd h
Held-pos (z ∷ zs) p c (g, s, v) (inl u) = let (low, high, pos, _) = used_bounds z p c g u in pos
Held-pos (z ∷ zs) p c (g, s, v) (inr h) = Held-pos zs p c v h

-- A block of an entry is one at that address in a zone of the same type.
pub moved :
    (z z' : Zone) (k p c : ℕ)
    → z'.type ≡ z.type
    → z'.begin ≡ z.begin
    → z'.slots ≡ z.slots
    → z'.table k ≡ z.table k
    → k < z.slots
    → is_used (z.table k).kind ≡ true
    → start z (z.table k) ≡ p
    → (z.table k).size ≡ c
    → UsedAt z' p c
moved z z' k p c type begin slots same h u at bytes = record {
  entry = k;
  in_table = rw slots h;
  used = rw same u;
  at = rw (same, type, begin) at;
  bytes = rw same bytes;
}
