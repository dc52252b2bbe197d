-- ===== src/Memory/Heap/Release.antt =====
-- What `hfree` promises.
use firedrake.Common.{ℕ, ◌≡◌, refl, inl, inr, false, none, some, get_elem?, Option-cases}
use firedrake.Memory.Zone.{Zone}
use firedrake.Memory.Heap.{Heap, panics, returns, Freed, find_zone, free_in, hfree}
use firedrake.Memory.Heap.Held.{Held, AllSound, Held-member}
use firedrake.Memory.Heap.Find.{find_zone-some, find_zone-none}
use firedrake.Memory.Heap.Freeing.{Released, free_in-Released}

hfree-some :
    (h : Heap) (p n i : ℕ) (z : Zone)
    → h.locked ≡ false
    → find_zone h.zones p ≡ some (n, i)
    → get_elem? h.zones n ≡ some z
    → hfree h p ≡ returns (free_in h n i z)
unfolding hfree
hfree-some h p n i z unlocked e member = simp (unlocked, e, member, hfree) refl

hfree-none : (h : Heap) (p : ℕ) → h.locked ≡ false → find_zone h.zones p ≡ none → hfree h p ≡ panics
unfolding hfree
hfree-none h p unlocked e = simp (unlocked, e, hfree) refl

-- `hfree` on a sound heap whose lock is free, with a pointer that a block in use begins at: it
-- returns, that block is not in use any more, all other blocks are as before, the zones are sound, the
-- lock is free, and pages that it gives back hold no block in use.
pub hfree_lem :
    (h : Heap) (p c : ℕ)
    → AllSound h.zones
    → h.locked ≡ false
    → Held h.zones p c
    → (r : Freed) × (hfree h p ≡ returns r) × Released h.zones p r
hfree_lem h p c sound unlocked held = elim (Option-cases (find_zone h.zones p)) [
  | inl missing ↦ absurd (find_zone-none h.zones p c sound missing held)
  | inr (f, hit) ↦
      let there = find_zone-some h.zones p f sound hit in
      (
        free_in h f.0 f.1 there.zone,
        hfree-some h p f.0 f.1 there.zone unlocked hit there.in_list,
        free_in-Released h f.0 f.1 p there.zone sound unlocked there.in_list there.in_table
            there.used there.at,
      )
]

-- `hfree` on a sound heap whose lock is free panics on a pointer that no block in use begins at.
pub hfree_unknown :
    (h : Heap) (p : ℕ)
    → AllSound h.zones
    → h.locked ≡ false
    → ((c : ℕ) → Held h.zones p c → ⊥)
    → hfree h p ≡ panics
hfree_unknown h p sound unlocked unknown = elim (Option-cases (find_zone h.zones p)) [
  | inl missing ↦ hfree-none h p unlocked missing
  | inr (f, hit) ↦
      let there = find_zone-some h.zones p f sound hit in
      absurd (
        unknown (there.zone.table f.1).size (
          Held-member h.zones f.0 there.zone p (there.zone.table f.1).size there.in_list (record {
            entry = f.1;
            in_table = there.in_table;
            used = there.used;
            at = there.at;
            bytes = refl;
          })))
]
