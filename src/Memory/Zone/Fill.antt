-- ===== src/Memory/Zone/Fill.antt =====
-- The loop of `__heap_createZoneForSize` that fills the table of a tiny zone.
use firedrake.Common.{
  ℕ, zero, suc, ◌+◌, ◌-◌, ◌%◌, ◌^◌, ◌<◌, ◌≤◌, ◌≡◌, ◌≢◌, refl, ap, ◌∙◌, inl, inr, true, arith, ltb,
  Bool-cases, minimum, ℕ_discrete,
}
use mathlib.Core.Path.{subst}
use firedrake.Memory.Zone.{Allocation, free, blank, set_entry, fill_tiny}
use firedrake.Memory.Zone.Table.{count, count-set_last, set_entry_self, set_entry_ne}
use firedrake.Memory.Zone.Inv.{live, spare}

-- What the loop makes of the entries from `i` on: its blocks are free, lie between `offset` and
-- `offset + left` and come one behind the other, and it counts them.
pub record Filled (rounds i offset left : ℕ) (t : ℕ → Allocation) (made : (ℕ → Allocation) × ℕ)
    : Type 0 where
  pub below : (k : ℕ) → k < i → made.0 k ≡ t k
  pub good :
      (k : ℕ)
      → i ≤ k
      → k < i + rounds
      → live (made.0 k) ≡ true
      → (offset ≤ (made.0 k).place)
        × ((made.0 k).place + (made.0 k).size ≤ offset + left)
        × (0 < (made.0 k).size)
        × ((made.0 k).size < 256)
  pub ordered :
      (k l : ℕ)
      → i ≤ k
      → k < l
      → l < i + rounds
      → live (made.0 k) ≡ true
      → live (made.0 l) ≡ true
      → (made.0 k).place + (made.0 k).size ≤ (made.0 l).place
  pub lives : count live made.0 (i + rounds) ≡ count live t i + made.1
  pub spares : count spare made.0 (i + rounds) ≡ count spare t i + made.1

module _ (rounds i offset left : ℕ) (t : ℕ → Allocation) (made : (ℕ → Allocation) × ℕ) where
  -- one more block in front of the others
  fill_one :
      (size : ℕ)
      → 0 < size
      → size < 256
      → size ≤ left
      → Filled rounds
          (i + 1)
          (offset + size)
          (left - size)
          (set_entry t i (record { kind = free; size = size; place = offset }))
          made
      → Filled (suc rounds) i offset left t (made.0, suc made.1)
  fill_one size pos lt fits f =
      let a : Allocation = record { kind = free; size = size; place = offset } in
      let here : made.0 i ≡ a = f.below i (omega arith) ∙ set_entry_self t i a in
      record {
        below = λ k h. f.below k (omega arith) ∙ set_entry_ne t i a k (omega arith);
        good = λ k low high l. elim (ℕ_discrete i k) [
          | yes e ↦
              let at : made.0 k ≡ a = subst (λ m. made.0 m ≡ a) e here in
              rw at (omega arith, omega arith, pos, lt)
          | no ne ↦
              let (lo, hi, p, s) = f.good k (omega arith) (omega arith) l in
              (omega arith, omega arith, p, s)
        ];
        ordered = λ k l low mid high lk ll. elim (ℕ_discrete i k) [
          | yes e ↦
              let at : made.0 k ≡ a = subst (λ m. made.0 m ≡ a) e here in
              let (lo, hi, p, s) = f.good l (omega arith) (omega arith) ll in rw at lo
          | no ne ↦ f.ordered k l (omega arith) mid (omega arith) lk ll
        ];
        lives = ground (arith, f.lives, count-set_last live t i a);
        spares = ground (arith, f.spares, count-set_last spare t i a);
      }

  -- an unused entry in front of the others
  fill_blank :
      Filled rounds (i + 1) offset left (set_entry t i (blank 0xFFFF)) made
      → Filled (suc rounds) i offset left t made
  fill_blank f =
      let here : made.0 i ≡ blank 0xFFFF =
        f.below i (omega arith) ∙ set_entry_self t i (blank 0xFFFF) in
      let other : (k : ℕ) → live (made.0 k) ≡ true → i ≢ k = λ k lk e.
        let at : made.0 k ≡ blank 0xFFFF = subst (λ m. made.0 m ≡ blank 0xFFFF) e here in
        let dead = ap live at in ground arith in
      record {
        below = λ k h. f.below k (omega arith) ∙ set_entry_ne t i (blank 0xFFFF) k (omega arith);
        good = λ k low high lk. let ne = other k lk in f.good k (omega arith) (omega arith) lk;
        ordered = λ k l low mid high lk ll.
            let ne = other k lk in f.ordered k l (omega arith) mid (omega arith) lk ll;
        lives = ground (arith, f.lives, count-set_last live t i (blank 0xFFFF));
        spares = ground (arith, f.spares, count-set_last spare t i (blank 0xFFFF));
      }

pub fill_tiny-Filled :
    (rounds i offset left : ℕ) (t : ℕ → Allocation)
    → offset + left < 2 ^ 16
    → Filled rounds i offset left t (fill_tiny rounds i offset left t)
unfolding fill_tiny
fill_tiny-Filled zero i offset left t lt = record {
  below = λ k h. refl;
  good = λ k low high l. absurd (omega arith);
  ordered = λ k l low mid high lk ll. absurd (omega arith);
  lives =
      let e : i + 0 ≡ i = omega arith in
      let m : count live t (i + 0) ≡ count live t i + 0 = rw e (omega arith) in m;
  spares =
      let e : i + 0 ≡ i = omega arith in
      let m : count spare t (i + 0) ≡ count spare t i + 0 = rw e (omega arith) in m;
}
fill_tiny-Filled (suc rounds) i offset left t lt = elim (Bool-cases (ltb 0 left)) [
  | inl more ↦
      let size = minimum left 255 in
      let no_wrap : (offset + size) % 2 ^ 16 ≡ offset + size = ground arith in
      let a : Allocation = record { kind = free; size = size; place = offset } in
      let rest : Filled rounds (i + 1) (offset + size) (left - size) (set_entry t i a)
          (fill_tiny rounds (i + 1) ((offset + size) % 2 ^ 16) (left - size) (set_entry t i a)) =
        rw no_wrap (
          fill_tiny-Filled rounds (i + 1) (offset + size) (left - size) (set_entry t i a)
            (ground arith)) in
      rw (more, fill_tiny)
        (fill_one rounds i offset left t _ size (ground arith) (ground arith) (ground arith) rest)
  | inr done ↦
      rw (done, fill_tiny)
        (fill_blank rounds i offset left t _
          (fill_tiny-Filled rounds (i + 1) offset left (set_entry t i (blank 0xFFFF)) lt))
]

pub fill_tiny-first :
    (rounds left : ℕ) (t : ℕ → Allocation)
    → 0 < left
    → left < 2 ^ 16
    → (fill_tiny (suc rounds) 0 0 left t).0 0
      ≡ record { kind = free; size = minimum left 255; place = 0 }
unfolding fill_tiny
fill_tiny-first rounds left t pos lt =
    let more : ltb 0 left ≡ true = ground arith in
    let size = minimum left 255 in
    let a : Allocation = record { kind = free; size = size; place = 0 } in
    let no_wrap : (0 + size) % 2 ^ 16 + (left - size) < 2 ^ 16 = ground arith in
    let f =
      fill_tiny-Filled rounds 1 ((0 + size) % 2 ^ 16) (left - size) (set_entry t 0 a) no_wrap in
    rw (more, fill_tiny) (f.below 0 (omega arith) ∙ set_entry_self t 0 a)
