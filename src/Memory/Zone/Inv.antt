-- ===== src/Memory/Zone/Inv.antt =====
-- What holds of a zone between the operations: its live entries are blocks of the zone that do not
-- overlap, and the counters count them.
use firedrake.Common.{
  ℕ, ◌+◌, ◌^◌, ◌<◌, ◌≤◌, ◌≡◌, ◌≢◌, ◌⊎◌, Bool, true, not, arith, if◌then◌else◌, word, inl, inr,
  ℕ_discrete,
}
use native.Mathlib.Nat.{le_trans}
use firedrake.Memory.Zone.{
  Zone, Allocation, is_tiny, is_free, is_unused, size_mod, place_mod, address,
}
use firedrake.Memory.Zone.Table.{count}

abbrev pub live : Allocation → Bool
live a = not (is_unused a.kind)

abbrev pub spare : Allocation → Bool
spare a = is_free a.kind

-- where an entry's block begins
abbrev pub start : Zone → Allocation → ℕ
start z a = if is_tiny z.type then z.begin + a.place else a.place

abbrev pub finish : Zone → Allocation → ℕ
finish z a = start z a + a.size

-- The block lies in the zone, is not empty, and its numbers fit their fields.
abbrev pub IsBlock : Zone → Allocation → Type 0
IsBlock z a =
    (z.begin ≤ start z a)
    × (finish z a ≤ z.end)
    × (a.size < size_mod z.type)
    × (a.place < place_mod z.type)
    × (0 < a.size)

abbrev pub Apart : Zone → Allocation → Allocation → Type 0
Apart z a b = (finish z a ≤ start z b) ⊎ (finish z b ≤ start z a)

-- The live entries of a table are blocks of the zone.
abbrev pub Blocks : Zone → (ℕ → Allocation) → Type 0
Blocks z t = (i : ℕ) → i < z.slots → live (t i) ≡ true → IsBlock z (t i)

-- No two of them overlap.
abbrev pub AllApart : Zone → (ℕ → Allocation) → Type 0
AllApart z t =
    (i j : ℕ)
    → i < z.slots
    → j < z.slots
    → i ≢ j
    → live (t i) ≡ true
    → live (t j) ≡ true
    → Apart z (t i) (t j)

pub record IsValid (z : Zone) : Type 0 where
  pub blocks : Blocks z z.table
  pub apart : AllApart z z.table
  pub end_word : z.end < word
  pub tiny_span : is_tiny z.type ≡ true → z.end < z.begin + 2 ^ 16
  pub slots_small : z.slots < 2 ^ 16
  pub live_count : z.allocations ≡ count live z.table z.slots
  pub free_count : z.free_allocations ≡ count spare z.table z.slots

-- Each block of the new table lies in a block of the old one, `parent`.
abbrev pub Refines : Zone → (t t' : ℕ → Allocation) (parent : ℕ → ℕ) → Type 0
Refines z t t' parent =
    (k : ℕ)
    → k < z.slots
    → live (t' k) ≡ true
    → (parent k < z.slots)
      × (live (t (parent k)) ≡ true)
      × (start z (t (parent k)) ≤ start z (t' k))
      × (finish z (t' k) ≤ finish z (t (parent k)))

-- Then the new blocks are apart where those of one parent are.
pub Apart-by :
    (z : Zone) (t t' : ℕ → Allocation) (parent : ℕ → ℕ)
    → AllApart z t
    → Refines z t t' parent
    → ((k l : ℕ)
        → k ≢ l
        → parent k ≡ parent l
        → live (t' k) ≡ true
        → live (t' l) ≡ true
        → Apart z (t' k) (t' l))
    → AllApart z t'
Apart-by z t t' parent apart refines siblings k l hk hl ne lk ll =
    elim (ℕ_discrete (parent k) (parent l)) [
      | yes same ↦ siblings k l ne same lk ll
      | no other ↦
          let (pk, live_k, low_k, high_k) = refines k hk lk in
          let (pl, live_l, low_l, high_l) = refines l hl ll in
          elim (apart (parent k) (parent l) pk pl other live_k live_l) [
            | inl before ↦ inl (le_trans high_k (le_trans before low_l))
            | inr behind ↦ inr (le_trans high_l (le_trans behind low_k))
          ]
    ]

-- The pointer of a block is where it begins: nothing wraps.
pub address-start :
    (z : Zone) (a : Allocation) → z.end < word → IsBlock z a → address z a ≡ start z a
address-start z a lt b = ground arith
