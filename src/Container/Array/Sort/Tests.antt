-- ===== src/Container/Array/Sort/Tests.antt =====
-- Runs of the sorts of array.c that `array_sort` combines.
use firedrake.Common.{◌≡◌, refl, [], ◌∷◌, ltb, if◌then◌else◌}
use firedrake.Container.Array.Sort.{
  Comparator, lesser, equal, greater, sift_down, heap_sort, heap_sort_ex, build_heap, empty_heap,
  larger_child, exchange, quick_sort, partition, partition_from, choose_pivot, is_sorted,
  sorted_from,
}

abbrev numbers : Comparator
numbers a b = if ltb a b then lesser else if ltb b a then greater else equal

-- heap sort on its own
heap_sort_run : heap_sort numbers (30 ∷ 10 ∷ 20 ∷ 5 ∷ []) 4 ≡ 5 ∷ 10 ∷ 20 ∷ 30 ∷ []
unfolding heap_sort heap_sort_ex build_heap empty_heap sift_down larger_child exchange
heap_sort_run = refl

-- Quick sort on its own leaves ranges of two as they are, since `__array_isSorted` stops before the last
-- pair. The insertion sort puts them in order.
quick_sort_run : quick_sort 4 numbers (30 ∷ 10 ∷ 20 ∷ 5 ∷ []) 0 3 ≡ 10 ∷ 5 ∷ 20 ∷ 30 ∷ []
unfolding quick_sort partition partition_from choose_pivot is_sorted sorted_from exchange
quick_sort_run = refl
