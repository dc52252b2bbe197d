-- ===== src/Container/HashSet/SetObject.antt =====
-- What `hashset_setObjectForKey` does.
use firedrake.Common.{
  ℕ, ◌≡◌, ◌≢◌, refl, sym, ap, ◌∙◌, inl, inr, Bool, true, false, Option, none, some, ◌∷◌, ◌==◌,
  if◌then◌else◌, arith, Bool-cases, Option-cases,
}
use firedrake.Container.HashSet.{
  Bucket, Chain, HashSet, find_in, index, chain, find_bucket1, with_chain, find_bucket2,
  expand_if_needed, object_for_key, fill_bucket, bucket_data, put_first, put_in, first_object,
  set_object_for_key,
}
use firedrake.Container.HashSet.Chains.{by_address, Good, chain-set_self}
use firedrake.Container.HashSet.Lookup.{IsValid, find-lookup, expand_if_needed-Keeps}
use firedrake.Container.HashSet.Change.{
  low, rechained-IsValid, rechained_here, rechained_other, Good-here, Effect, object, object-find,
  objects-same, Effect-Keeps, fill_bucket-Effect,
}

-- the set with a fresh bucket for a key that had none
linked : HashSet → (key : ℕ) → HashSet
linked s key = with_chain s key (record { key = key; data_pointer = 0 } ∷ chain s key)

module _ (s : HashSet) (key : ℕ) (v : IsValid s) (nz : key ≢ 0)
    (miss : find_bucket1 s key ≡ none) where
  fresh_chain : Chain
  fresh_chain = record { key = key; data_pointer = 0 } ∷ chain s key

  absent : find_in by_address (chain s key) key ≡ none
  absent = sym (find-lookup s key v) ∙ miss

  fresh-Good : Good s.hash_function s.capacity (index s key) fresh_chain
  unfolding Good fresh_chain
  fresh-Good = ((λ h. (refl, absent)), Good-here s key v)

  linked-IsValid : IsValid (linked s key)
  unfolding linked fresh_chain
  linked-IsValid = rechained-IsValid s key v fresh_chain s.count fresh-Good

  linked_here : find_bucket1 (linked s key) key ≡ some (record { key = key; data_pointer = 0 })
  unfolding linked fresh_chain find_in
  linked_here =
      let fresh : Bucket = record { key = key; data_pointer = 0 } in
      let hit : (key == key) ≡ true = ground arith in
      rechained_here s key v fresh_chain s.count fresh-Good
      ∙ ap (λ o. if o then some fresh else find_in by_address (chain s key) key) hit

  linked_other : (k : ℕ) → k ≢ key → find_bucket1 (linked s key) k ≡ find_bucket1 s k
  unfolding linked fresh_chain find_in
  linked_other k ne =
      let fresh : Bucket = record { key = key; data_pointer = 0 } in
      let other : (key == k) ≡ false = ground arith in
      rechained_other s key v fresh_chain s.count k fresh-Good
        (ap (λ o. if o then some fresh else find_in by_address (chain s key) k) other)

-- the end of `hashset_setObjectForKey`, once there is a bucket for the key
settle : (memory : Bool) → HashSet → (is_new : Bool) → (data_pointer key : ℕ) → HashSet
settle memory t is_new data_pointer key =
    if bucket_data t is_new key == 0
    then expand_if_needed memory (fill_bucket t is_new data_pointer key)
    else t

settle-Effect :
    (memory : Bool) (t : HashSet) (data_pointer key : ℕ) (b : Bucket)
    → IsValid t
    → key ≢ 0
    → find_bucket1 t key ≡ some b
    → Effect t key
        (if object_for_key t key == 0 then data_pointer else object_for_key t key)
        (settle memory t false data_pointer key)
unfolding settle bucket_data
settle-Effect memory t data_pointer key b v nz hit = elim (Bool-cases (object_for_key t key == 0)) [
  | inl unset ↦
      let filled = fill_bucket-Effect t data_pointer key b v nz hit in
      rw unset (
        Effect-Keeps t (fill_bucket t false data_pointer key) _ key data_pointer nz filled
          (expand_if_needed-Keeps memory (fill_bucket t false data_pointer key) filled.valid))
  | inr held ↦ rw held (record { valid = v; here = refl; others = λ k ne nz'. refl })
]

-- The new bucket is the one that a search finds.
settle-new :
    (memory : Bool) (s : HashSet) (data_pointer key : ℕ)
    → IsValid s
    → object_for_key (linked s key) key ≡ 0
    → settle memory (linked s key) true data_pointer key
      ≡ settle memory (linked s key) false data_pointer key
unfolding settle bucket_data fill_bucket put_first put_in first_object linked
settle-new memory s data_pointer key v unset =
    let fresh : Chain = record { key = key; data_pointer = 0 } ∷ chain s key in
    let same : chain (linked s key) key ≡ fresh =
      chain-set_self s.buckets (index s key) fresh (low s key v) in
    let hit : (key == key) ≡ true = ground arith in
    let itself : s.compare_function key key ≡ true =
      ap (λ (f : ℕ → ℕ → Bool). f key key) v.compares ∙ hit in
    rw (same, unset, itself) refl

set-some :
    (memory : Bool) (s : HashSet) (data_pointer key : ℕ) (t : HashSet) (is_new : Bool)
    → (data_pointer == 0) ≡ false
    → find_bucket2 true s key ≡ some (t, is_new)
    → set_object_for_key true memory s data_pointer key
      ≡ some (settle memory t is_new data_pointer key)
unfolding set_object_for_key settle
set-some memory s data_pointer key t is_new given e = rw given (
    ap
      (λ o. elim o as (λ x. Option HashSet) [
        | none ↦ none
        | some u ↦
            if bucket_data u.0 u.1 key == 0
            then some (expand_if_needed memory (fill_bucket u.0 u.1 data_pointer key))
            else some u.0
      ])
      e
    ∙ elim (Bool-cases (bucket_data t is_new key == 0)) [ inl x ↦ rw x refl | inr x ↦ rw x refl ])

-- `hashset_setObjectForKey` of an object and a key that are not `NULL`, with memory for a bucket, on a
-- valid set that compares by address, leaves a valid set in which the key finds the object if it found
-- none before, and otherwise what it found before, not the new object; every other key but `NULL` finds
-- what it found, whether or not there is memory to expand.
pub set_object_for_key-Effect :
    (memory : Bool) (s : HashSet) (data_pointer key : ℕ)
    → IsValid s
    → key ≢ 0
    → data_pointer ≢ 0
    → (t : HashSet) × (set_object_for_key true memory s data_pointer key ≡ some t)
      × Effect s key (if object_for_key s key == 0 then data_pointer else object_for_key s key) t
unfolding set_object_for_key find_bucket2 object settle linked
set_object_for_key-Effect memory s data_pointer key v nz dz =
    let given : (data_pointer == 0) ≡ false = ground arith in
    elim (Option-cases (find_bucket1 s key)) [
      | inr (b, hit) ↦ (
        settle memory s false data_pointer key,
        set-some memory s data_pointer key s false given
            (ap (λ o. elim o [ none ↦ some (linked s key, true) | some x ↦ some (s, false) ]) hit),
        settle-Effect memory s data_pointer key b v nz hit,
      )
      | inl miss ↦
          let t = linked s key in
          let v' = linked-IsValid s key v nz miss in
          let fresh : Bucket = record { key = key; data_pointer = 0 } in
          let here = linked_here s key v nz miss in
          let unset : object_for_key t key ≡ 0 = object-find t key (some fresh) here in
          let unset' : object_for_key s key ≡ 0 = object-find s key none miss in
          let e = settle-Effect memory t data_pointer key fresh v' nz here in
          (
            settle memory t false data_pointer key,
            set-some memory s data_pointer key t true given (
                  ap (λ o. elim o [ none ↦ some (linked s key, true) | some x ↦ some (s, false) ])
                    miss)
                ∙ ap some (settle-new memory s data_pointer key v unset),
            record {
              valid = e.valid;
              here = e.here ∙ ap (λ x. if x == 0 then data_pointer else x) (unset ∙ sym unset');
              others = λ k ne nz'.
                  e.others k ne nz' ∙ objects-same s t k (linked_other s key v nz miss k ne);
            },
          )
    ]
