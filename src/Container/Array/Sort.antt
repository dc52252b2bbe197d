-- ===== src/Container/Array/Sort.antt =====
-- sys/container/array.c, `array_sort`: quick sort to a limited depth, heap sort below it, and an
-- insertion sort over the whole.
pub mod Occurs
pub mod Rearrange
pub mod Insertion
pub mod Sorted
mod Tests
use firedrake.Common.{
  ℕ, zero, suc, ◌+◌, ◌-◌, ◌*◌, ◌/◌, Bool, true, false, List, ◌==◌, ltb, not, ◌&&◌, if◌then◌else◌,
  get_or, set, add32, sub32, mul32,
}
use firedrake.Container.Array.{Array}

-- `comparison_result_t`: kCompareLesserThan, kCompareEqualTo, kCompareGreaterThan
pub data Comparison : Type 0 where
  lesser equal greater : Comparison

-- `comparator_t`
abbrev pub Comparator : Type 0
Comparator = ℕ → ℕ → Comparison

-- `< kCompareEqualTo`
abbrev pub is_lesser : Comparison → Bool
is_lesser lesser = true
is_lesser _ = false

-- `<= kCompareEqualTo`
abbrev pub at_most : Comparison → Bool
at_most greater = false
at_most _ = true

abbrev pub word_at : List ℕ → ℕ → ℕ
word_at d i = get_or d i 0

-- `__array_exchangeObjects`
pub exchange : List ℕ → (i j : ℕ) → List ℕ
exchange d i j = set (set d i (word_at d j)) j (word_at d i)

-- the loop of `__array_isSorted`, with `n` rounds left
pub sorted_from : Comparator → List ℕ → (begin n : ℕ) → Bool
sorted_from cmp d begin zero = true
sorted_from cmp d begin (suc n) =
    let rest = sorted_from cmp d (begin + 1) n in
    if is_lesser (cmp (word_at d begin) (word_at d (begin + 1))) then false else rest

-- `__array_isSorted`
pub is_sorted : Comparator → List ℕ → (begin end : ℕ) → Bool
is_sorted cmp d begin end = if end == 0 then true else sorted_from cmp d begin (end - 1 - begin)

-- the larger of the children at `child` and behind it
pub larger_child : Comparator → List ℕ → (child length : ℕ) → ℕ
larger_child cmp d child length =
    if ltb (child + 1) length && is_lesser (cmp (word_at d child) (word_at d (child + 1)))
    then child + 1
    else child

-- the `while` of `__array_heapSortEx`, the word `temp` being held back. A round goes down a level of
-- the heap, so `length` rounds are enough.
pub sift_down : ℕ → Comparator → List ℕ → (index length temp : ℕ) → List ℕ
sift_down zero cmp d index length temp = set d index temp
sift_down (suc fuel) cmp d index length temp =
    let child = index * 2 + 1 in
    elim (ltb child length) [
      | false ↦ set d index temp
      | true ↦
          let next = larger_child cmp d child length in
          elim (is_lesser (cmp temp (word_at d next))) [
            | false ↦ set d index temp
            | true ↦ sift_down fuel cmp (set d index (word_at d next)) next length temp
          ]
    ]

-- `__array_heapSortEx`
pub heap_sort_ex : Comparator → List ℕ → (index length : ℕ) → List ℕ
heap_sort_ex cmp d index length = sift_down length cmp d index length (word_at d index)

-- the first loop of `__array_heapSort`, down from index `n`
pub build_heap : Comparator → List ℕ → (n length : ℕ) → List ℕ
build_heap cmp d zero length = d
build_heap cmp d (suc n) length = build_heap cmp (heap_sort_ex cmp d n length) n length

-- the second, with `n + 1` words left in the heap
pub empty_heap : Comparator → List ℕ → (n : ℕ) → List ℕ
empty_heap cmp d zero = d
empty_heap cmp d (suc n) = empty_heap cmp (heap_sort_ex cmp (exchange d 0 (suc n)) 0 (suc n)) n

-- `__array_heapSort`
pub heap_sort : Comparator → List ℕ → (length : ℕ) → List ℕ
heap_sort cmp d length =
    let heap = build_heap cmp d (length / 2) length in
    if length == 0 then heap else empty_heap cmp heap (length - 1)

-- the pivot that `__array_quickSortPartition` chooses
pub choose_pivot : Comparator → List ℕ → (begin end : ℕ) → ℕ
choose_pivot cmp d begin end =
    let middle = add32 begin end / 2 in
    let first =
      if not (is_lesser (cmp (word_at d middle) (word_at d begin))) then middle else begin in
    if not (is_lesser (cmp (word_at d first) (word_at d end))) then end else first

-- its loop, with `n` rounds left until `begin` is `end`
pub partition_from : Comparator → List ℕ → (n begin end pivot : ℕ) → List ℕ × ℕ
partition_from cmp d zero begin end pivot = (d, pivot)
partition_from cmp d (suc n) begin end pivot =
    elim (at_most (cmp (word_at d begin) (word_at d end))) [
      | true ↦ partition_from cmp (exchange d pivot begin) n (begin + 1) end (pivot + 1)
      | false ↦ partition_from cmp d n (begin + 1) end pivot
    ]

-- `__array_quickSortPartition`: the words, and the pivot's place
pub partition : Comparator → List ℕ → (begin end : ℕ) → List ℕ × ℕ
partition cmp d begin end =
    let moved = exchange d (choose_pivot cmp d begin end) begin in
    let parted = partition_from cmp moved (end - begin) begin end begin in
    (exchange parted.0 parted.1 end, parted.1)

-- `__array_quickSort`
pub quick_sort : (depth : ℕ) → Comparator → List ℕ → (begin end : ℕ) → List ℕ
quick_sort zero cmp d begin end =
    if ltb begin end && not (end == 0xFFFFFFFF) then heap_sort cmp d (end - begin + 1) else d
quick_sort (suc depth) cmp d begin end = elim (ltb begin end && not (end == 0xFFFFFFFF)) [
  | false ↦ d
  | true ↦ elim (is_sorted cmp d begin end) [
    | true ↦ d
    | false ↦
        let parted = partition cmp d begin end in
        let left = quick_sort depth cmp parted.0 begin (sub32 parted.1 1) in
        quick_sort depth cmp left (add32 parted.1 1) end
  ]
]

-- the inner loop of `__array_insertionSort` from `j` on, the word `temp` being held back
pub insert_down : Comparator → List ℕ → (j temp : ℕ) → List ℕ
insert_down cmp d zero temp = set d 0 temp
insert_down cmp d (suc j) temp = elim (at_most (cmp (word_at d j) temp)) [
  | true ↦ set d (suc j) temp
  | false ↦ insert_down cmp (set d (suc j) (word_at d j)) j temp
]

-- its outer loop from `i` on, with `n` rounds left
pub insertion_from : Comparator → List ℕ → (i n : ℕ) → List ℕ
insertion_from cmp d i zero = d
insertion_from cmp d i (suc n) = insertion_from cmp (insert_down cmp d i (word_at d i)) (i + 1) n

-- `__array_insertionSort`
pub insertion_sort : Comparator → List ℕ → (count : ℕ) → List ℕ
insertion_sort cmp d count = insertion_from cmp d 1 (count - 1)

-- `__array_logBase2`; 32 rounds empty a word
pub log_base2 : (fuel count : ℕ) → ℕ
log_base2 zero count = 0
log_base2 (suc fuel) count =
    let rest = log_base2 fuel (count / 2) in if count / 2 == 0 then 0 else suc rest

-- `array_sort`
pub array_sort : Comparator → Array → Array
array_sort cmp a =
    let roughly =
      if ltb 5 a.count
      then quick_sort (2 * log_base2 32 a.count) cmp a.data_words 0 (sub32 a.count 1)
      else a.data_words in
    if a.count == 0 then a else record a { data_words = insertion_sort cmp roughly a.count }
