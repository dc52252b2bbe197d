-- ===== src/Memory/Zone/Retag.antt =====
-- An entry of a zone's table changes between free and used: the blocks stay what they are.
use firedrake.Common.{ℕ, ◌≡◌, refl, true, arith, ℕ_discrete}
use firedrake.Memory.Zone.{Zone, Allocation, Kind, set_entry}
use firedrake.Memory.Zone.Table.{set_entry_self, set_entry_ne}
use firedrake.Memory.Zone.Inv.{live, start, finish, Blocks, AllApart}

abbrev pub tagged : Kind → Allocation → Allocation
tagged kind a = record { kind = kind; size = a.size; place = a.place }

abbrev pub retag : (ℕ → Allocation) → ℕ → Kind → ℕ → Allocation
retag t i kind = set_entry t i (tagged kind (t i))

-- Where a live entry is retagged, `a` stands for the block that `b` stood for.
abbrev SameBlock : Allocation → Allocation → Type 0
SameBlock a b = (a.size ≡ b.size) × (a.place ≡ b.place) × (live a ≡ true → live b ≡ true)

retag_same :
    (t : ℕ → Allocation) (i : ℕ) (kind : Kind) (k : ℕ)
    → live (t i) ≡ true
    → SameBlock (retag t i kind k) (t k)
retag_same t i kind k lv = elim (ℕ_discrete k i) [
  | yes e ↦ rw (e, set_entry_self t i (tagged kind (t i))) (refl, refl, λ _. lv)
  | no ne ↦ rw (set_entry_ne t i (tagged kind (t i)) k ne) (refl, refl, λ l. l)
]

same_start :
    (z : Zone) (a b : Allocation)
    → SameBlock a b
    → (start z a ≡ start z b) × (finish z a ≡ finish z b)
same_start z a b (s, p, _) = ground arith

pub retag-Blocks :
    (z : Zone) (t : ℕ → Allocation) (i : ℕ) (kind : Kind)
    → live (t i) ≡ true
    → Blocks z t
    → Blocks z (retag t i kind)
retag-Blocks z t i kind lv blocks k lt l =
    let same = retag_same t i kind k lv in
    let (starts, ends) = same_start z (retag t i kind k) (t k) same in
    let (low, high, size_fits, place_fits, pos) = blocks k lt (same.2 l) in
    (rw starts low, rw ends high, rw same.0 size_fits, rw same.1 place_fits, rw same.0 pos)

pub retag-AllApart :
    (z : Zone) (t : ℕ → Allocation) (i : ℕ) (kind : Kind)
    → live (t i) ≡ true
    → AllApart z t
    → AllApart z (retag t i kind)
retag-AllApart z t i kind lv apart k j hk hj ne lk lj =
    let same = retag_same t i kind k lv in
    let same' = retag_same t i kind j lv in
    let (starts, ends) = same_start z (retag t i kind k) (t k) same in
    let (starts', ends') = same_start z (retag t i kind j) (t j) same' in
    rw (starts, starts', same.0, same'.0) (apart k j hk hj ne (same.2 lk) (same'.2 lj))
