-- ===== src/Container/Array/Tests.antt =====
-- The theorems on arrays at an array of three objects.
use firedrake.Common.{
  sym, ℕ, List, ◌∙◌, ◌/◌, ◌%◌, ◌≡◌, refl, inl, inr, false, none, some, [], ◌∷◌, arith, ltb, ◌==◌,
  if◌then◌else◌, length, length-replicate, replicate, Bool-cases, some_inj, ap,
}
use firedrake.Container.Array.{
  Array, Allocator, no_step, insert_object, remove_object_at_index, index_of_object,
}
use firedrake.Container.Array.Edit.{
  contents, IsValid, IsSmall, Honest, Edits, insert_object-Edits, remove_object_at_index_lem,
}
use firedrake.Container.Array.Locate.{Located, index_of_object-Located}
use firedrake.Container.Array.Sort.{Comparator, lesser, equal, greater, array_sort}
use firedrake.Container.Array.Sort.Occurs.{Rearranged}
use firedrake.Container.Array.Sort.Insertion.{IsOrder, InOrder}
use firedrake.Container.Array.Sort.Sorted.{array_sort_lem}

-- all the memory asked for, if it is whole words
abbrev halloc : Allocator
halloc bytes = if bytes % 4 == 0 then some (replicate (bytes / 4) 0) else none

halloc-Honest : Honest halloc
halloc-Honest bytes ws e = elim (Bool-cases (bytes % 4 == 0)) [
  | inl whole ↦
      let words : List ℕ = replicate (bytes / 4) 0 in
      let given : some words ≡ some ws = ground arith in
      let same : words ≡ ws = some_inj given in
      let size : length words ≡ bytes / 4 = length-replicate (bytes / 4) 0 in
      let size' : length ws ≡ bytes / 4 = sym (ap length same) ∙ size in
      let whole' : bytes % 4 ≡ 0 = ground arith in omega arith
  | inr broken ↦ absurd (ground arith)
]

abbrev array : Array
array = record {
  count = 3;
  space = 5;
  allocation_step = no_step;
  data_words = 30 ∷ 10 ∷ 20 ∷ 0 ∷ 0 ∷ [];
  lock = false;
}

array-IsValid : IsValid array
array-IsValid = (refl, omega arith)

array-IsSmall : IsSmall array
array-IsSmall = (omega arith, inl refl)

insert_object-Edits_example :
    Edits halloc array (30 ∷ 40 ∷ 10 ∷ 20 ∷ []) (insert_object halloc array 40 1)
insert_object-Edits_example =
    insert_object-Edits halloc array 40 1 halloc-Honest array-IsValid array-IsSmall (omega arith)

remove_object_at_index_lem_example :
    (b : Array) × (remove_object_at_index halloc array 0 ≡ some b)
    × IsValid b
    × (contents b ≡ 10 ∷ 20 ∷ [])
remove_object_at_index_lem_example =
    remove_object_at_index_lem halloc array 0 halloc-Honest array-IsValid (omega arith)
      (omega arith)

index_of_object-Located_example : Located array 20 (index_of_object array 20)
index_of_object-Located_example = index_of_object-Located array 20

-- the order of the numbers
abbrev numbers : Comparator
numbers a b = if ltb a b then lesser else if ltb b a then greater else equal

numbers-IsOrder : IsOrder numbers
numbers-IsOrder = record { trans = λ a b c ab bc. ground arith; total = λ a b ab. ground arith }

array_sort_lem_example :
    InOrder numbers 3 (array_sort numbers array).data_words
    × Rearranged 3 array.data_words (array_sort numbers array).data_words
    × ((array_sort numbers array).count ≡ 3)
    × ((array_sort numbers array).space ≡ 5)
array_sort_lem_example = array_sort_lem numbers array numbers-IsOrder (omega arith) (omega arith)
