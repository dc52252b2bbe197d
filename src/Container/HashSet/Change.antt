-- ===== src/Container/HashSet/Change.antt =====
-- What keys find after `hashset_setObjectForKey` and `hashset_removeObjectForKey`.
use firedrake.Common.{
  false, ℕ, ◌<◌, ◌≡◌, ◌≢◌, refl, sym, ap, ◌∙◌, inl, inr, Bool, Option, none, some, [], arith,
  get_or, set, length, length-set, add32, sub32, Option-cases, ℕ_discrete,
}
use mathlib.Core.Path.{subst}
use native.Mathlib.Nat.{mod-lt}
use firedrake.Container.HashSet.{
  Bucket, Chain, HashSet, find_in, put_in, index, chain, find_bucket1, with_chain, object_for_key,
  clear_bucket, remove_object_for_key, fill_bucket,
}
use firedrake.Container.HashSet.Chains.{
  by_address, Good, find-put_in, find-put_in_other, find-cleared, chain-set_self, chain-set_ne,
}
use firedrake.Container.HashSet.Good.{Modest, Good-put_in, AllGood-chain, AllGood-with}
use firedrake.Container.HashSet.Lookup.{IsValid, Keeps, find-lookup, shrink_if_needed-Keeps}

-- a set with another chain at the key's place, and another count
abbrev pub rechained : HashSet → (key : ℕ) → Chain → (count : ℕ) → HashSet
rechained s key c count = record (with_chain s key c) { count = count }

module _ (s : HashSet) (key : ℕ) (v : IsValid s) where
  pub rechained-IsValid :
      (c : Chain) (count : ℕ)
      → Good s.hash_function s.capacity (index s key) c
      → IsValid (rechained s key c count)
  rechained-IsValid c count g = record {
    compares = v.compares;
    full = length-set s.buckets (index s key) c ∙ v.full;
    pos = v.pos;
    good = AllGood-with s.hash_function s.capacity s.buckets key c v.good g;
  }

  pub low : index s key < length s.buckets
  low = let small = mod-lt (s.hash_function key) v.pos in let full = v.full in omega arith

  pub rechained_here :
      (c : Chain) (count : ℕ)
      → Good s.hash_function s.capacity (index s key) c
      → find_bucket1 (rechained s key c count) key ≡ find_in by_address c key
  rechained_here c count g =
      find-lookup (rechained s key c count) key (rechained-IsValid c count g)
      ∙ ap (λ d. find_in by_address d key) (chain-set_self s.buckets (index s key) c low)

  pub rechained_other :
      (c : Chain) (count k : ℕ)
      → Good s.hash_function s.capacity (index s key) c
      → find_in by_address c k ≡ find_in by_address (chain s key) k
      → find_bucket1 (rechained s key c count) k ≡ find_bucket1 s k
  rechained_other c count k g same =
      find-lookup (rechained s key c count) k (rechained-IsValid c count g)
      ∙ elim (ℕ_discrete (index s key) (index s k)) [
        | yes e ↦
            let there : get_or (set s.buckets (index s key) c) (index s k) [] ≡ c =
              subst (λ j. get_or (set s.buckets (index s key) c) j [] ≡ c) e
                (chain-set_self s.buckets (index s key) c low) in
            ap (λ d. find_in by_address d k) there
            ∙ same
            ∙ ap (λ j. find_in by_address (get_or s.buckets j []) k) e
        | no ne ↦
            ap (λ d. find_in by_address d k) (chain-set_ne s.buckets (index s key) (index s k) c ne)
      ]
      ∙ sym (find-lookup s k v)

  pub Good-here : Good s.hash_function s.capacity (index s key) (chain s key)
  Good-here = AllGood-chain s.hash_function s.capacity s.buckets key v.good

  -- the bucket of the key changed
  abbrev changed : (Bucket → Bucket) → Chain
  changed change = put_in by_address (chain s key) key change

  changed_other :
      (change : Bucket → Bucket) (k : ℕ)
      → Modest change
      → k ≢ key
      → k ≢ 0
      → find_in by_address (changed change) k ≡ find_in by_address (chain s key) k
  changed_other change k m ne nz =
      find-put_in_other (chain s key) key k change ne
        (λ b e. elim (m b) [ inl same ↦ λ h. ne (sym h ∙ same ∙ e) | inr z ↦ λ h. nz (sym h ∙ z) ])

-- The effect on a set: what the key finds then, and that other keys find the same.
pub record Effect (s : HashSet) (key : ℕ) (after : ℕ) (t : HashSet) : Type 0 where
  pub valid : IsValid t
  pub here : object_for_key t key ≡ after
  pub others : (k : ℕ) → k ≢ key → k ≢ 0 → object_for_key t k ≡ object_for_key s k

unfoldable pub object : Option Bucket → ℕ
object o = elim o [ none ↦ 0 | some b ↦ b.data_pointer ]

pub object-find :
    (s : HashSet) (k : ℕ) (o : Option Bucket) → find_bucket1 s k ≡ o → object_for_key s k ≡ object o
unfolding object_for_key object
object-find s k o e = ap (λ x. elim x [ none ↦ 0 | some b ↦ b.data_pointer ]) e

pub objects-same :
    (s t : HashSet) (k : ℕ)
    → find_bucket1 t k ≡ find_bucket1 s k
    → object_for_key t k ≡ object_for_key s k
unfolding object_for_key
objects-same s t k e = ap (λ x. elim x [ none ↦ 0 | some b ↦ b.data_pointer ]) e

pub Effect-Keeps :
    (s t u : HashSet) (key after : ℕ)
    → key ≢ 0
    → Effect s key after t
    → Keeps t u
    → Effect s key after u
Effect-Keeps s t u key after nz e k = record {
  valid = k.valid;
  here = objects-same t u key (k.finds key nz) ∙ e.here;
  others = λ m ne nz'. objects-same t u m (k.finds m nz') ∙ e.others m ne nz';
}

pub fill_bucket-Effect :
    (s : HashSet) (data_pointer key : ℕ) (b : Bucket)
    → IsValid s
    → key ≢ 0
    → find_bucket1 s key ≡ some b
    → Effect s key data_pointer (fill_bucket s false data_pointer key)
unfolding fill_bucket object
fill_bucket-Effect s data_pointer key b v nz found =
    let change : Bucket → Bucket = λ x. record x { data_pointer = data_pointer } in
    let m : Modest change = λ x. inl refl in
    let c = changed s key v change in
    let g =
      Good-put_in s.hash_function s.capacity (index s key) (chain s key) key change m
        (Good-here s key v) in
    let old : find_in by_address (chain s key) key ≡ some b = sym (find-lookup s key v) ∙ found in
    let n = add32 s.count 1 in
    let t = rechained s key c n in
    let e : Effect s key data_pointer t = record {
      valid = rechained-IsValid s key v c n g;
      here =
          object-find t key (some (change b))
            (rechained_here s key v c n g ∙ find-put_in (chain s key) key b change old (λ x h. h));
      others = λ k ne nz'.
          objects-same s t k
            (rechained_other s key v c n k g (changed_other s key v change k m ne nz'));
    } in
    subst (λ f. Effect s key data_pointer (rechained s key (put_in f (chain s key) key change) n))
      (sym v.compares) e

clear_bucket-Effect :
    (s : HashSet) (key : ℕ) → IsValid s → key ≢ 0 → Effect s key 0 (clear_bucket s key)
unfolding clear_bucket object
clear_bucket-Effect s key v nz =
    let change : Bucket → Bucket = λ x. record { key = 0; data_pointer = 0 } in
    let m : Modest change = λ x. inr refl in
    let c = changed s key v change in
    let g =
      Good-put_in s.hash_function s.capacity (index s key) (chain s key) key change m
        (Good-here s key v) in
    let n = sub32 s.count 1 in
    let t = rechained s key c n in
    let e : Effect s key 0 t = record {
      valid = rechained-IsValid s key v c n g;
      here = object-find t key none (
          rechained_here s key v c n g
          ∙ find-cleared s.hash_function s.capacity (index s key) (chain s key) key change
              (Good-here s key v) nz (λ x. refl));
      others = λ k ne nz'.
          objects-same s t k
            (rechained_other s key v c n k g (changed_other s key v change k m ne nz'));
    } in
    subst (λ f. Effect s key 0 (rechained s key (put_in f (chain s key) key change) n))
      (sym v.compares) e

-- `hashset_removeObjectForKey` of a key that is not `NULL`, on a valid set that compares by address,
-- leaves a valid set in which the key finds nothing and every other key but `NULL` what it found,
-- whether or not there is memory to shrink.
pub remove_object_for_key-Effect :
    (memory : Bool) (s : HashSet) (key : ℕ)
    → IsValid s
    → key ≢ 0
    → Effect s key 0 (remove_object_for_key memory s key)
unfolding remove_object_for_key object
remove_object_for_key-Effect memory s key v nz = elim (Option-cases (find_bucket1 s key)) [
  | inl miss ↦
      rw (miss, remove_object_for_key)
        (record { valid = v; here = object-find s key none miss; others = λ k ne nz'. refl })
  | inr (b, hit) ↦
      rw (hit, remove_object_for_key)
        (Effect-Keeps s (clear_bucket s key) _ key 0 nz (clear_bucket-Effect s key v nz) (
          shrink_if_needed-Keeps memory (clear_bucket s key)
            (clear_bucket-Effect s key v nz).valid))
]
