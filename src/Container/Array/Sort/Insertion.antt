-- ===== src/Container/Array/Sort/Insertion.antt =====
-- The insertion sort leaves the words in order.
use firedrake.Common.{
  ℕ, zero, suc, ◌+◌, ◌<◌, ◌≤◌, ◌≡◌, ◌≢◌, sym, inl, inr, true, false, List, arith, length, set,
  length-set, Bool-cases, ℕ_discrete,
}
use mathlib.Core.Path.{subst}
use firedrake.Container.Array.Words.{get-set_self, get-set_ne}
use firedrake.Container.Array.Sort.{Comparator, at_most, word_at, insert_down, insertion_from}
use firedrake.Container.Array.Sort.Occurs.{Rearranged, Rearranged-refl, Rearranged-trans}
use firedrake.Container.Array.Sort.Rearrange.{insert-Rearranged}

-- the comparator's verdict that `a` may stand before `b`
abbrev pub Before : Comparator → ℕ → ℕ → Type 0
Before cmp a b = at_most (cmp a b) ≡ true

-- It is an order in which any two words can be put, equal ones in both.
pub record IsOrder (cmp : Comparator) : Type 0 where
  pub trans : (a b c : ℕ) → Before cmp a b → Before cmp b c → Before cmp a c
  pub total : (a b : ℕ) → at_most (cmp a b) ≡ false → Before cmp b a

-- The first `n` words are in order.
abbrev pub InOrder : Comparator → ℕ → List ℕ → Type 0
InOrder cmp n d = (a b : ℕ) → a < b → b < n → Before cmp (word_at d a) (word_at d b)

-- The state of the inner loop on the words up to `i`: they are in order, but for the place `j`, which
-- is free, and `temp` may stand before those behind it.
record Hole (cmp : Comparator) (d : List ℕ) (j i temp : ℕ) : Type 0 where
  pairs : (a b : ℕ) → a < b → b ≤ i → a ≢ j → b ≢ j → Before cmp (word_at d a) (word_at d b)
  above : (b : ℕ) → j < b → b ≤ i → Before cmp temp (word_at d b)

module _ (cmp : Comparator) (order : IsOrder cmp) where
  -- the word held back is put at the free place
  fill :
      (d : List ℕ) (j i temp : ℕ)
      → Hole cmp d j i temp
      → i < length d
      → j ≤ i
      → ((a : ℕ) → a < j → Before cmp (word_at d a) temp)
      → InOrder cmp (suc i) (set d j temp)
  fill d j i temp h long le under a b lt hb = elim (ℕ_discrete a j) [
    | yes e ↦
        let here : word_at (set d j temp) a ≡ temp = rw e (get-set_self d j temp (omega arith)) in
        let there = get-set_ne d j b temp (omega arith) in
        rw (here, there) (h.above b (omega arith) (omega arith))
    | no ne ↦
        let there = get-set_ne d j a temp (λ e. ne (sym e)) in
        elim (ℕ_discrete b j) [
          | yes e ↦
              let here : word_at (set d j temp) b ≡ temp =
                rw e (get-set_self d j temp (omega arith)) in
              rw (here, there) (under a (omega arith))
          | no ne' ↦
              let there' = get-set_ne d j b temp (λ e. ne' (sym e)) in
              rw (there, there') (h.pairs a b lt (omega arith) ne ne')
        ]
  ]

  -- a round of the loop moves the free place down
  move-Hole :
      (d : List ℕ) (j i temp : ℕ)
      → Hole cmp d (suc j) i temp
      → i < length d
      → suc j ≤ i
      → at_most (cmp (word_at d j) temp) ≡ false
      → Hole cmp (set d (suc j) (word_at d j)) j i temp
  move-Hole d j i temp h long le big =
      let here = get-set_self d (suc j) (word_at d j) (omega arith) in
      record {
        pairs = λ a b lt hb na nb. elim (ℕ_discrete a (suc j)) [
          | yes e ↦
              let here' : word_at (set d (suc j) (word_at d j)) a ≡ word_at d j = rw e here in
              let there = get-set_ne d (suc j) b (word_at d j) (omega arith) in
              rw (here', there) (h.pairs j b (omega arith) hb (omega arith) (omega arith))
          | no ne ↦
              let there = get-set_ne d (suc j) a (word_at d j) (λ e. ne (sym e)) in
              elim (ℕ_discrete b (suc j)) [
                | yes e ↦
                    let here' : word_at (set d (suc j) (word_at d j)) b ≡ word_at d j = rw e here in
                    rw (here', there) (h.pairs a j (omega arith) (omega arith) ne (omega arith))
                | no ne' ↦
                    let there' = get-set_ne d (suc j) b (word_at d j) (λ e. ne' (sym e)) in
                    rw (there, there') (h.pairs a b lt hb ne ne')
              ]
        ];
        above = λ b lt hb. elim (ℕ_discrete b (suc j)) [
          | yes e ↦
              let here' : word_at (set d (suc j) (word_at d j)) b ≡ word_at d j = rw e here in
              rw here' (order.total (word_at d j) temp big)
          | no ne ↦
              let there = get-set_ne d (suc j) b (word_at d j) (λ e. ne (sym e)) in
              rw there (h.above b (omega arith) hb)
        ];
      }

  insert_down-InOrder :
      (d : List ℕ) (j i temp : ℕ)
      → Hole cmp d j i temp
      → i < length d
      → j ≤ i
      → InOrder cmp (suc i) (insert_down cmp d j temp)
  unfolding insert_down
  insert_down-InOrder d zero i temp h long le =
      fill d 0 i temp h long le (λ a lt. absurd (omega arith))
  insert_down-InOrder d (suc j) i temp h long le =
      elim (Bool-cases (at_most (cmp (word_at d j) temp))) [
        | inl small ↦
            rw (small, insert_down)
              (fill d (suc j) i temp h long le (λ a lt. elim (ℕ_discrete a j) [
                | yes e ↦ rw e small
                | no ne ↦
                    order.trans (word_at d a) (word_at d j) temp
                      (h.pairs a j (omega arith) (omega arith) (omega arith) (omega arith)) small
              ]))
        | inr big ↦
            let size = length-set d (suc j) (word_at d j) in
            rw (big, insert_down)
              (insert_down-InOrder (set d (suc j) (word_at d j)) j i temp
                (move-Hole d j i temp h long le big) (omega arith) (omega arith))
      ]

  pub insertion_from-InOrder :
      (n : ℕ) (d : List ℕ) (i k : ℕ)
      → i + k ≡ n
      → n ≤ length d
      → InOrder cmp i d
      → InOrder cmp n (insertion_from cmp d i k) × Rearranged n d (insertion_from cmp d i k)
  unfolding insertion_from
  insertion_from-InOrder n d i zero e le sorted =
      let same : i ≡ n = omega arith in
      (subst (λ m. InOrder cmp m d) same sorted, Rearranged-refl n d)
  insertion_from-InOrder n d i (suc k) e le sorted =
      let once = insert-Rearranged cmp n d i (omega arith) le in
      let long = once.size in
      let more : InOrder cmp (suc i) (insert_down cmp d i (word_at d i)) =
        insert_down-InOrder d i i (word_at d i)
          (record {
            pairs = λ a b lt hb na nb. sorted a b lt (omega arith);
            above = λ b lt hb. absurd (omega arith);
          })
          (omega arith) (omega arith) in
      let next : suc i ≡ i + 1 = omega arith in
      let (done, r) =
        insertion_from-InOrder n (insert_down cmp d i (word_at d i)) (i + 1) k (omega arith)
          (omega arith)
          (subst (λ m. InOrder cmp m (insert_down cmp d i (word_at d i))) next more) in
      (done, Rearranged-trans once r)
