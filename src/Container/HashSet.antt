-- ===== src/Container/HashSet.antt =====
-- sys/container/hashset.c: a map from keys to objects in chained buckets. Keys and objects are pointers,
-- 0 being `NULL`.
pub mod Chains
pub mod Rehash
pub mod Good
pub mod Lookup
pub mod Change
pub mod SetObject
pub mod Iterate
mod Tests
use firedrake.Common.{
  ℕ, zero, suc, ◌+◌, ◌-◌, ◌%◌, Bool, true, false, Option, none, some, List, [], ◌∷◌, ◌++◌, map,
  ◌==◌, ltb, leb, ◌||◌, if◌then◌else◌, get_or, set, replicate, add32, sub32,
}

-- `hashet_capacity`
abbrev pub capacities : List ℕ
capacities =
    5 ∷ 11 ∷ 23 ∷ 41 ∷ 67 ∷ 113 ∷ 199 ∷ 317 ∷ 521 ∷ 839 ∷ 1361 ∷ 2207 ∷ 3571 ∷ 5779 ∷ 9349 ∷ 15121
    ∷ 24473 ∷ 39607 ∷ 64081 ∷ 103681 ∷ 167759 ∷ 271429 ∷ 439199 ∷ 710641 ∷ 1149857 ∷ 1860503
    ∷ 3010349 ∷ 4870843 ∷ 7881193 ∷ 12752029 ∷ 20633237 ∷ 33385273 ∷ 54018521 ∷ 87403763 ∷ 141422317
    ∷ 228826121 ∷ 370248451 ∷ 599074561 ∷ 969323023 ∷ 1568397599 ∷ 2537720629 ∷ 4106118251 ∷ []

-- `hashset_maxCount`
abbrev pub max_counts : List ℕ
max_counts =
    4 ∷ 8 ∷ 17 ∷ 29 ∷ 47 ∷ 76 ∷ 123 ∷ 199 ∷ 322 ∷ 521 ∷ 843 ∷ 1364 ∷ 2207 ∷ 3571 ∷ 5778 ∷ 9349
    ∷ 15127 ∷ 24476 ∷ 39603 ∷ 64079 ∷ 103682 ∷ 167761 ∷ 271443 ∷ 439204 ∷ 710647 ∷ 1149851 ∷ 1860498
    ∷ 3010349 ∷ 4870847 ∷ 7881196 ∷ 12752043 ∷ 20633239 ∷ 33385282 ∷ 54018521 ∷ 87403803 ∷ 141422324
    ∷ 228826127 ∷ 370248451 ∷ 599074578 ∷ 969323029 ∷ 1568397607 ∷ 2537720636 ∷ []

-- `hashset_bucket_t`; the `overflow` pointers make a list of each chain
pub record Bucket : Type 0 where
  pub key : ℕ
  pub data_pointer : ℕ

abbrev pub Chain : Type 0
Chain = List Bucket

-- `hashset_t`
pub record HashSet : Type 0 where
  pub capacity : ℕ
  pub count : ℕ
  pub buckets : List Chain
  pub hash_function : ℕ → ℕ
  pub compare_function : ℕ → ℕ → Bool
  pub lock : Bool

-- the capacity that `hashset_create` settles on, in its loop from `i` on
pub find_capacity : (rounds i capacity : ℕ) → ℕ
find_capacity zero i capacity = capacity
find_capacity (suc n) i capacity =
    let rest = find_capacity n (i + 1) capacity in
    if ltb capacity (get_or capacities i 0) || (i == 41) then get_or capacities (i - 1) 0 else rest

-- `hashset_create`; `given` and `memory` say whether `halloc` has memory for the struct and the buckets
pub create :
    (given memory : Bool) → (capacity : ℕ) → (hash : ℕ → ℕ) → Option (ℕ → ℕ → Bool) → Option HashSet
create given memory capacity hash compare =
    let found = find_capacity 41 1 capacity in
    if given
    then (if memory
        then some (record {
          capacity = found;
          count = 0;
          buckets = replicate found [];
          hash_function = hash;
          compare_function = elim compare [ none ↦ λ a b. a == b | some f ↦ f ];
          lock = false;
        })
        else none)
    else none

abbrev pub index : HashSet → (key : ℕ) → ℕ
index s key = s.hash_function key % s.capacity

abbrev pub chain : HashSet → (key : ℕ) → Chain
chain s key = get_or s.buckets (index s key) []

-- the `while` of `hashset_findBucket1`
pub find_in : (ℕ → ℕ → Bool) → Chain → (key : ℕ) → Option Bucket
find_in same [] key = none
find_in same (b ∷ bs) key =
    let rest = find_in same bs key in if same b.key key then some b else rest

-- `hashset_findBucket1`
pub find_bucket1 : HashSet → (key : ℕ) → Option Bucket
find_bucket1 s key = find_in s.compare_function (chain s key) key

-- the chain with a change to the bucket that the search finds
pub put_in : (ℕ → ℕ → Bool) → Chain → (key : ℕ) → (Bucket → Bucket) → Chain
put_in same [] key change = []
put_in same (b ∷ bs) key change =
    let rest = put_in same bs key change in if same b.key key then change b ∷ bs else b ∷ rest

abbrev pub with_chain : HashSet → (key : ℕ) → Chain → HashSet
with_chain s key c = record s { buckets = set s.buckets (index s key) c }

-- `hashset_findBucket2`: the set with a bucket for the key, and whether the bucket is new, so that it is
-- the first of its chain; none where it needs memory and gets none
pub find_bucket2 : (memory : Bool) → HashSet → (key : ℕ) → Option (HashSet × Bool)
find_bucket2 memory s key = elim (find_bucket1 s key) [
  | some b ↦ some (s, false)
  | none ↦
      if memory
      then some (with_chain s key (record { key = key; data_pointer = 0 } ∷ chain s key), true)
      else none
]

-- one bucket of the old table in the loop of `hashset_rehash`
pub relink : (ℕ → ℕ) → (capacity : ℕ) → Bucket → List Chain → List Chain
relink hash capacity b bs =
    let i = hash b.key % capacity in if b.key == 0 then bs else set bs i (b ∷ get_or bs i [])

pub relink_chain : (ℕ → ℕ) → (capacity : ℕ) → Chain → List Chain → List Chain
relink_chain hash capacity [] bs = bs
relink_chain hash capacity (b ∷ c) bs = relink_chain hash capacity c (relink hash capacity b bs)

pub relink_all : (ℕ → ℕ) → (capacity : ℕ) → List Chain → List Chain → List Chain
relink_all hash capacity [] bs = bs
relink_all hash capacity (c ∷ cs) bs = relink_all hash capacity cs (relink_chain hash capacity c bs)

-- `hashset_rehash`; it keeps the set where there is no memory
pub rehash : (memory : Bool) → HashSet → (capacity : ℕ) → HashSet
rehash memory s capacity =
    if memory
    then record s {
      capacity = capacity;
      buckets = relink_all s.hash_function capacity s.buckets (replicate capacity []);
    }
    else s

-- `hashset_expandIfNeeded`, its loop from `i` on
pub expand_from : (memory : Bool) → HashSet → (rounds i : ℕ) → HashSet
expand_from memory s zero i = s
expand_from memory s (suc n) i =
    let rest = expand_from memory s n (i + 1) in
    if s.capacity == get_or capacities i 0
    then (if leb (get_or max_counts i 0) s.count
        then rehash memory s (get_or capacities (i + 1) 0)
        else s)
    else rest

pub expand_if_needed : (memory : Bool) → HashSet → HashSet
expand_if_needed memory s = expand_from memory s 41 0

-- one round of the loop of `hashset_shrinkIfNeeded`
pub shrink_at : (memory : Bool) → HashSet → (i : ℕ) → HashSet
shrink_at memory s i =
    if s.capacity == get_or capacities i 0
    then (if leb s.count (get_or max_counts (i - 1) 0)
        then rehash memory s (get_or capacities (i - 1) 0)
        else s)
    else s

pub shrink_from : (memory : Bool) → HashSet → (rounds i : ℕ) → HashSet
shrink_from memory s zero i = s
shrink_from memory s (suc n) i = shrink_from memory (shrink_at memory s i) n (i + 1)

-- `hashset_shrinkIfNeeded`
pub shrink_if_needed : (memory : Bool) → HashSet → HashSet
shrink_if_needed memory s = shrink_from memory s 40 1

-- `hashset_lock` returns where nobody holds the lock
pub lock_set : HashSet → Option HashSet
lock_set s = if s.lock then none else some (record s { lock = true })

pub unlock_set : HashSet → HashSet
unlock_set s = record s { lock = false }

-- `hashset_objectForKey`
pub object_for_key : HashSet → (key : ℕ) → ℕ
object_for_key s key = elim (find_bucket1 s key) [ none ↦ 0 | some b ↦ b.data_pointer ]

-- what `hashset_removeObjectForKey` does before it shrinks the set
pub clear_bucket : HashSet → (key : ℕ) → HashSet
clear_bucket s key =
    record (with_chain s key
      (put_in s.compare_function (chain s key) key (λ b. record { key = 0; data_pointer = 0 }))) {
        count = sub32 s.count 1;
      }

-- `hashset_removeObjectForKey`
pub remove_object_for_key : (memory : Bool) → HashSet → (key : ℕ) → HashSet
remove_object_for_key memory s key = elim (find_bucket1 s key) [
  | none ↦ s
  | some b ↦ shrink_if_needed memory (clear_bucket s key)
]

-- the chain with a change to its first bucket
pub put_first : Chain → (Bucket → Bucket) → Chain
put_first [] change = []
put_first (b ∷ bs) change = change b ∷ bs

pub first_object : Chain → ℕ
first_object [] = 0
first_object (b ∷ bs) = b.data_pointer

-- the data of the bucket that `hashset_findBucket2` returned
pub bucket_data : HashSet → (is_new : Bool) → (key : ℕ) → ℕ
bucket_data s is_new key = if is_new then first_object (chain s key) else object_for_key s key

-- what `hashset_setObjectForKey` does to that bucket, before it expands the set
pub fill_bucket : HashSet → (is_new : Bool) → (data_pointer key : ℕ) → HashSet
fill_bucket s is_new data_pointer key =
    let change : Bucket → Bucket = (λ b. record b { data_pointer = data_pointer }) in
    record (with_chain s key (
      if is_new
      then put_first (chain s key) change
      else put_in s.compare_function (chain s key) key change)) { count = add32 s.count 1 }

-- `hashset_setObjectForKey`; none is a read through the `NULL` bucket that a lack of memory leaves
pub set_object_for_key :
    (bucket_memory memory : Bool) → HashSet → (data_pointer key : ℕ) → Option HashSet
set_object_for_key bucket_memory memory s data_pointer key =
    if data_pointer == 0
    then some (remove_object_for_key memory s key)
    else elim (find_bucket2 bucket_memory s key) [
      | none ↦ none
      | some found ↦
          if bucket_data found.0 found.1 key == 0
          then some (expand_if_needed memory (fill_bucket found.0 found.1 data_pointer key))
          else some found.0
    ]

-- `hashset_count`
pub set_count : HashSet → ℕ
set_count s = s.count

-- the objects of a chain, in order
pub objects_in : Chain → List ℕ
objects_in [] = []
objects_in (b ∷ bs) =
    let rest = objects_in bs in if b.data_pointer == 0 then rest else b.data_pointer ∷ rest

-- `hashset_allObjects`: the objects that it adds to the array
pub all_objects : List Chain → List ℕ
all_objects [] = []
all_objects (c ∷ cs) = objects_in c ++ all_objects cs
