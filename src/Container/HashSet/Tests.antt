-- ===== src/Container/HashSet/Tests.antt =====
-- The theorems on hash sets at a set of five chains with one key.
use firedrake.Common.{replicate, ◌≡◌, refl, true, false, some, [], ◌∷◌, ◌==◌, if◌then◌else◌, arith}
use firedrake.Container.HashSet.{
  Bucket, HashSet, find_bucket1, find_bucket2, bucket_data, find_in, object_for_key, rehash,
  remove_object_for_key, set_object_for_key,
}
use firedrake.Container.HashSet.Chains.{by_address, Good, AllGood}
use firedrake.Container.HashSet.Lookup.{IsValid, Keeps, rehash-Keeps}
use firedrake.Container.HashSet.Change.{Effect, remove_object_for_key-Effect}
use firedrake.Container.HashSet.{all_objects, objects_in}
use firedrake.Container.HashSet.Iterate.Callback.{iterator, iterator_next, collect-all_objects}
use firedrake.Container.Iterator.{fresh, create}
use firedrake.Container.Iterator.Drain.{collect}
use firedrake.Container.HashSet.SetObject.{set_object_for_key-Effect}

-- key 7 with object 70; the hash of a pointer is the pointer
abbrev held : Bucket
held = record { key = 7; data_pointer = 70 }

abbrev hashset : HashSet
hashset = record {
  capacity = 5;
  count = 1;
  buckets = [] ∷ [] ∷ (held ∷ []) ∷ [] ∷ [] ∷ [];
  hash_function = λ key. key;
  compare_function = by_address;
  lock = false;
}

hashset-IsValid : IsValid hashset
unfolding AllGood Good find_in
hashset-IsValid = record {
  compares = refl;
  full = refl;
  pos = omega arith;
  good = (tt, (tt, (((λ nz. (refl, refl)), tt), (tt, (tt, tt)))));
}

rehash-Keeps_example : Keeps hashset (rehash true hashset 11)
rehash-Keeps_example = rehash-Keeps true hashset 11 hashset-IsValid (omega arith)

remove_object_for_key-Effect_example : Effect hashset 7 0 (remove_object_for_key true hashset 7)
remove_object_for_key-Effect_example =
    remove_object_for_key-Effect true hashset 7 hashset-IsValid (omega arith)

set_object_for_key-Effect_example :
    (t : HashSet) × (set_object_for_key true true hashset 120 12 ≡ some t)
    × Effect hashset 12
        (if object_for_key hashset 12 == 0 then 120 else object_for_key hashset 12)
        t
set_object_for_key-Effect_example =
    set_object_for_key-Effect true hashset 120 12 hashset-IsValid (omega arith) (omega arith)

abbrev chained : HashSet
chained = record {
  capacity = 3;
  count = 2;
  buckets =
      []
      ∷ (record { key = 4; data_pointer = 40 } ∷ record { key = 1; data_pointer = 10 } ∷ [])
      ∷ []
      ∷ [];
  hash_function = λ key. key;
  compare_function = λ a b. a == b;
  lock = false;
}

collect-all_objects_example :
    collect iterator_next 3
      (fresh (replicate 10 0) (record { rest = []; index = 0; keys = false }) chained)
    ≡ 40 ∷ 10 ∷ 0 ∷ []
unfolding create iterator all_objects objects_in
collect-all_objects_example = collect-all_objects chained true (replicate 10 0) 3 _ refl refl

-- A key that is set keeps its object: another is not stored.
set_twice : set_object_for_key true true hashset 71 7 ≡ some hashset
unfolding set_object_for_key bucket_data find_bucket2 find_bucket1 find_in object_for_key
set_twice = refl
