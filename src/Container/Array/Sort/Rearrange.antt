-- ===== src/Container/Array/Sort/Rearrange.antt =====
-- Quick sort, heap sort and insertion sort rearrange the words.
use firedrake.Common.{
  ℕ, zero, suc, ◌+◌, ◌-◌, ◌*◌, ◌/◌, ◌<◌, ◌≤◌, ◌≢◌, inl, inr, not, ◌&&◌, List, arith, ltb, ◌==◌,
  length, set, length-set, Bool-cases, word, add32, sub32,
}
use mathlib.Core.Path.{subst}
use firedrake.Container.Array.Sort.{
  Comparator, is_lesser, at_most, word_at, exchange, larger_child, sift_down, heap_sort_ex,
  build_heap, empty_heap, heap_sort, choose_pivot, partition_from, partition, quick_sort, is_sorted,
  insert_down,
}
use firedrake.Container.Array.Sort.Occurs.{
  Rearranged, Rearranged-refl, Rearranged-trans, exchange-Rearranged, held-Rearranged, set-same,
}

pub larger_child_bounds :
    (cmp : Comparator) (d : List ℕ) (child len : ℕ)
    → child < len
    → (child ≤ larger_child cmp d child len) × (larger_child cmp d child len < len)
unfolding larger_child
larger_child_bounds cmp d child len h = ground arith

module _ (cmp : Comparator) (n : ℕ) where
  sift_down-Rearranged :
      (fuel : ℕ) (d : List ℕ) (index len temp : ℕ)
      → index < n
      → len ≤ n
      → n ≤ length d
      → Rearranged n (set d index temp) (sift_down fuel cmp d index len temp)
  unfolding sift_down
  sift_down-Rearranged zero d index len temp hi hl le = Rearranged-refl n (set d index temp)
  sift_down-Rearranged (suc fuel) d index len temp hi hl le =
      elim (Bool-cases (ltb (index * 2 + 1) len)) [
        | inr last ↦ rw (last, sift_down) (Rearranged-refl n (set d index temp))
        | inl more ↦
            let next = larger_child cmp d (index * 2 + 1) len in
            let (low, high) = larger_child_bounds cmp d (index * 2 + 1) len (ground arith) in
            rw (more, sift_down)
              (elim (Bool-cases (is_lesser (cmp temp (word_at d next)))) [
                | inr fits ↦ rw (fits, sift_down) (Rearranged-refl n (set d index temp))
                | inl down ↦
                    let long = length-set d index (word_at d next) in
                    rw (down, sift_down)
                      (Rearranged-trans
                        (held-Rearranged n d index next temp hi (omega arith) (omega arith) le)
                        (sift_down-Rearranged fuel (set d index (word_at d next)) next len temp
                          (omega arith) hl (omega arith)))
              ])
      ]

  heap_sort_ex-Rearranged :
      (d : List ℕ) (index len : ℕ)
      → index < n
      → len ≤ n
      → n ≤ length d
      → Rearranged n d (heap_sort_ex cmp d index len)
  unfolding heap_sort_ex
  heap_sort_ex-Rearranged d index len hi hl le =
      subst (λ e. Rearranged n e (sift_down len cmp d index len (word_at d index)))
        (set-same d index) (sift_down-Rearranged len d index len (word_at d index) hi hl le)

  build_heap-Rearranged :
      (d : List ℕ) (k len : ℕ)
      → k ≤ n
      → len ≤ n
      → n ≤ length d
      → Rearranged n d (build_heap cmp d k len)
  unfolding build_heap
  build_heap-Rearranged d zero len hk hl le = Rearranged-refl n d
  build_heap-Rearranged d (suc k) len hk hl le =
      let once = heap_sort_ex-Rearranged d k len (omega arith) hl le in
      let long = once.size in
      Rearranged-trans once
        (build_heap-Rearranged (heap_sort_ex cmp d k len) k len (omega arith) hl (omega arith))

  empty_heap-Rearranged :
      (d : List ℕ) (k : ℕ) → k < n → n ≤ length d → Rearranged n d (empty_heap cmp d k)
  unfolding empty_heap
  empty_heap-Rearranged d zero hk le = Rearranged-refl n d
  empty_heap-Rearranged d (suc k) hk le =
      let swap = exchange-Rearranged n d 0 (suc k) (omega arith) hk le in
      let long = swap.size in
      let once =
        heap_sort_ex-Rearranged (exchange d 0 (suc k)) 0 (suc k) (omega arith) (omega arith)
          (omega arith) in
      let long' = once.size in
      Rearranged-trans (Rearranged-trans swap once) (
        empty_heap-Rearranged (heap_sort_ex cmp (exchange d 0 (suc k)) 0 (suc k)) k (omega arith)
          (omega arith))

  heap_sort-Rearranged :
      (d : List ℕ) (len : ℕ) → len ≤ n → n ≤ length d → Rearranged n d (heap_sort cmp d len)
  unfolding heap_sort
  heap_sort-Rearranged d len hl le =
      let built = build_heap-Rearranged d (len / 2) len (omega arith) hl le in
      let long = built.size in
      elim (Bool-cases (len == 0)) [
        | inl e ↦ rw e built
        | inr ne ↦ rw ne (
            Rearranged-trans built (
              empty_heap-Rearranged (build_heap cmp d (len / 2) len) (len - 1) (ground arith)
                (omega arith)))
      ]

  partition_from-Rearranged :
      (d : List ℕ) (k begin end pivot : ℕ)
      → pivot ≤ begin
      → begin + k ≤ end
      → end < n
      → n ≤ length d
      → Rearranged n d (partition_from cmp d k begin end pivot).0
        × (pivot ≤ (partition_from cmp d k begin end pivot).1)
        × ((partition_from cmp d k begin end pivot).1 ≤ end)
  unfolding partition_from
  partition_from-Rearranged d zero begin end pivot hp hb he le =
      (Rearranged-refl n d, omega arith, omega arith)
  partition_from-Rearranged d (suc k) begin end pivot hp hb he le =
      elim (Bool-cases (at_most (cmp (word_at d begin) (word_at d end)))) [
        | inl small ↦
            let swap = exchange-Rearranged n d pivot begin (omega arith) (omega arith) le in
            let long = swap.size in
            let (r, low, high) =
              partition_from-Rearranged (exchange d pivot begin) k (begin + 1) end (pivot + 1)
                (omega arith) (omega arith) he (omega arith) in
            rw (small, partition_from) (Rearranged-trans swap r, omega arith, high)
        | inr big ↦
            rw (big, partition_from)
              (partition_from-Rearranged d k (begin + 1) end pivot (omega arith) (omega arith) he
                le)
      ]

  choose_pivot_bounds :
      (d : List ℕ) (begin end : ℕ) → begin < end → choose_pivot cmp d begin end ≤ end
  unfolding choose_pivot
  choose_pivot_bounds d begin end lt = ground arith

  partition-Rearranged :
      (d : List ℕ) (begin end : ℕ)
      → begin < end
      → end < n
      → n ≤ length d
      → Rearranged n d (partition cmp d begin end).0 × ((partition cmp d begin end).1 ≤ end)
  unfolding partition
  partition-Rearranged d begin end lt he le =
      let chosen = choose_pivot_bounds d begin end lt in
      let pivot = choose_pivot cmp d begin end in
      let swap = exchange-Rearranged n d pivot begin (omega arith) (omega arith) le in
      let long = swap.size in
      let (r, low, high) =
        partition_from-Rearranged (exchange d pivot begin) (end - begin) begin end begin
          (omega arith) (omega arith) he (omega arith) in
      let long' = r.size in
      let parted = partition_from cmp (exchange d pivot begin) (end - begin) begin end begin in
      (
        Rearranged-trans (Rearranged-trans swap r)
            (exchange-Rearranged n parted.0 parted.1 end (omega arith) he (omega arith)),
        high,
      )

  pub quick_sort-Rearranged :
      (depth : ℕ) (d : List ℕ) (begin end : ℕ)
      → (end ≢ 0xFFFFFFFF → end < n)
      → n < word - 1
      → n ≤ length d
      → Rearranged n d (quick_sort depth cmp d begin end)
  unfolding quick_sort
  quick_sort-Rearranged zero d begin end he small le =
      elim (Bool-cases (ltb begin end && not (end == 0xFFFFFFFF))) [
        | inr e ↦ rw e (Rearranged-refl n d)
        | inl e ↦
            let ok = he (ground arith) in
            rw e (heap_sort-Rearranged d (end - begin + 1) (ground arith) le)
      ]
  quick_sort-Rearranged (suc depth) d begin end he small le =
      elim (Bool-cases (ltb begin end && not (end == 0xFFFFFFFF))) [
        | inr e ↦ rw (e, quick_sort) (Rearranged-refl n d)
        | inl e ↦
            rw (e, quick_sort)
              (elim (Bool-cases (is_sorted cmp d begin end)) [
                | inl done ↦ rw (done, quick_sort) (Rearranged-refl n d)
                | inr todo ↦
                    let ok = he (ground arith) in
                    let (r, high) = partition-Rearranged d begin end (ground arith) ok le in
                    let long = r.size in
                    let parted = partition cmp d begin end in
                    let left = quick_sort depth cmp parted.0 begin (sub32 parted.1 1) in
                    let whole : Rearranged n d left = Rearranged-trans r (
                      quick_sort-Rearranged depth parted.0 begin (sub32 parted.1 1)
                        (λ ne. omega arith) small (omega arith)) in
                    let long' = whole.size in
                    rw (todo, quick_sort)
                      (Rearranged-trans whole (
                        quick_sort-Rearranged depth left (add32 parted.1 1) end he small
                          (omega arith)))
              ])
      ]

  insert_down-Rearranged :
      (d : List ℕ) (j temp : ℕ)
      → j < n
      → n ≤ length d
      → Rearranged n (set d j temp) (insert_down cmp d j temp)
  unfolding insert_down
  insert_down-Rearranged d zero temp hj le = Rearranged-refl n (set d 0 temp)
  insert_down-Rearranged d (suc j) temp hj le =
      elim (Bool-cases (at_most (cmp (word_at d j) temp))) [
        | inl e ↦ rw (e, insert_down) (Rearranged-refl n (set d (suc j) temp))
        | inr e ↦
            let long = length-set d (suc j) (word_at d j) in
            rw (e, insert_down)
              (Rearranged-trans
                (held-Rearranged n d (suc j) j temp hj (omega arith) (omega arith) le)
                (insert_down-Rearranged (set d (suc j) (word_at d j)) j temp (omega arith)
                  (omega arith)))
      ]

  pub insert-Rearranged :
      (d : List ℕ) (i : ℕ)
      → i < n
      → n ≤ length d
      → Rearranged n d (insert_down cmp d i (word_at d i))
  insert-Rearranged d i hi le =
      subst (λ e. Rearranged n e (insert_down cmp d i (word_at d i))) (set-same d i)
        (insert_down-Rearranged d i (word_at d i) hi le)
