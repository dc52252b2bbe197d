-- ===== src/Container/Array/Sort/Sorted.antt =====
-- `array_sort` sorts, and the loops of its heap sort end.
use firedrake.Common.{
  ℕ, zero, suc, ◌+◌, ◌-◌, ◌*◌, ◌^◌, ◌<◌, ◌≤◌, ◌≡◌, refl, inl, inr, false, List, arith, ltb, ◌==◌,
  if◌then◌else◌, length, set, Bool-cases, sub32,
}
use firedrake.Container.Array.{Array}
use firedrake.Container.Array.Sort.{
  Comparator, is_lesser, word_at, larger_child, sift_down, quick_sort, log_base2, insertion_sort,
  array_sort,
}
use firedrake.Container.Array.Sort.Occurs.{Rearranged, Rearranged-refl, Rearranged-trans}
use firedrake.Container.Array.Sort.Rearrange.{quick_sort-Rearranged, larger_child_bounds}
use firedrake.Container.Array.Sort.Insertion.{IsOrder, InOrder, insertion_from-InOrder}

insertion_sort-InOrder :
    (cmp : Comparator) (d : List ℕ) (count : ℕ)
    → IsOrder cmp
    → 0 < count
    → count ≤ length d
    → InOrder cmp count (insertion_sort cmp d count)
      × Rearranged count d (insertion_sort cmp d count)
unfolding insertion_sort
insertion_sort-InOrder cmp d count order pos le =
    insertion_from-InOrder cmp order count d 1 (count - 1) (omega arith) le
      (λ a b lt hb. absurd (omega arith))

-- `array_sort` by a comparator that orders any two objects, on an array whose count of fewer than
-- 2 ^ 31 objects is within its memory: the objects then are in order, each is there as often as
-- before, and neither the count nor the size of the memory changes.
pub array_sort_lem :
    (cmp : Comparator) (a : Array)
    → IsOrder cmp
    → a.count ≤ length a.data_words
    → a.count < 2 ^ 31
    → InOrder cmp a.count (array_sort cmp a).data_words
      × Rearranged a.count a.data_words (array_sort cmp a).data_words
      × ((array_sort cmp a).count ≡ a.count)
      × ((array_sort cmp a).space ≡ a.space)
unfolding array_sort
array_sort_lem cmp a order le small = elim (Bool-cases (a.count == 0)) [
  | inl none_held ↦
      rw none_held
        ((λ x y lt h. absurd (ground arith)), Rearranged-refl a.count a.data_words, refl, refl)
  | inr some_held ↦
      let roughly =
        if ltb 5 a.count
        then quick_sort (2 * log_base2 32 a.count) cmp a.data_words 0 (sub32 a.count 1)
        else a.data_words in
      let r : Rearranged a.count a.data_words roughly = elim (Bool-cases (ltb 5 a.count)) [
        | inl many ↦ rw many (
            quick_sort-Rearranged cmp a.count (2 * log_base2 32 a.count) a.data_words 0
              (sub32 a.count 1) (λ ne. ground arith) (omega arith) le)
        | inr few ↦ rw few (Rearranged-refl a.count a.data_words)
      ] in
      let long = r.size in
      let (sorted, r') =
        insertion_sort-InOrder cmp roughly a.count order (ground arith) (omega arith) in
      rw some_held (sorted, Rearranged-trans r r', refl, refl)
]

-- The loop of `__array_heapSortEx` ends by itself within as many rounds as words are left behind the
-- index: any two numbers of rounds that are enough give the same.
sift_down_lem :
    (fuel fuel' : ℕ) (cmp : Comparator) (d : List ℕ) (index len temp : ℕ)
    → len ≤ index + fuel
    → len ≤ index + fuel'
    → sift_down fuel cmp d index len temp ≡ sift_down fuel' cmp d index len temp
unfolding sift_down
sift_down_lem zero zero cmp d index len temp h h' = refl
sift_down_lem zero (suc fuel') cmp d index len temp h h' =
    let last : ltb (index * 2 + 1) len ≡ false = ground arith in rw (last, sift_down) refl
sift_down_lem (suc fuel) zero cmp d index len temp h h' =
    let last : ltb (index * 2 + 1) len ≡ false = ground arith in rw (last, sift_down) refl
sift_down_lem (suc fuel) (suc fuel') cmp d index len temp h h' =
    elim (Bool-cases (ltb (index * 2 + 1) len)) [
      | inr last ↦ rw (last, sift_down) refl
      | inl more ↦
          let next = larger_child cmp d (index * 2 + 1) len in
          let (low, high) = larger_child_bounds cmp d (index * 2 + 1) len (ground arith) in
          rw (more, sift_down)
            (elim (Bool-cases (is_lesser (cmp temp (word_at d next)))) [
              | inr fits ↦ rw (fits, sift_down) refl
              | inl down ↦
                  rw (down, sift_down)
                    (sift_down_lem fuel fuel' cmp (set d index (word_at d next)) next len temp
                      (omega arith) (omega arith))
            ])
    ]
