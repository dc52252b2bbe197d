-- ===== src/Container/Iterator/Tests.antt =====
-- Iterators of an array of twelve objects, which are fetched in two chunks.
use firedrake.Common.{◌≡◌, refl, true, false, [], ◌∷◌, arith, replicate}
use firedrake.Container.Array.{Array, no_step}
use firedrake.Container.Iterator.{fresh, create}
use firedrake.Container.Iterator.Drain.{collect}
use firedrake.Container.Array.Iterate.{iterator, iterator_next, collect-contents}

abbrev twelve : Array
twelve = record {
  count = 12;
  space = 14;
  allocation_step = no_step;
  data_words = 1 ∷ 2 ∷ 3 ∷ 4 ∷ 5 ∷ 6 ∷ 7 ∷ 8 ∷ 9 ∷ 10 ∷ 11 ∷ 12 ∷ 0 ∷ 0 ∷ [];
  lock = false;
}

collect-contents_example :
    collect iterator_next 14 (fresh (replicate 10 0) 0 twelve)
    ≡ 1 ∷ 2 ∷ 3 ∷ 4 ∷ 5 ∷ 6 ∷ 7 ∷ 8 ∷ 9 ∷ 10 ∷ 11 ∷ 12 ∷ 0 ∷ 0 ∷ []
unfolding create iterator
collect-contents_example =
    collect-contents twelve true (replicate 10 0) 14 _ (refl, omega arith) (omega arith) refl refl
