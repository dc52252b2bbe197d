-- ===== src/Container/HashSet/Lookup.antt =====
-- What keys find after the operations of hashset.c.
use firedrake.Common.{
  ℕ, zero, suc, ◌+◌, ◌-◌, ◌<◌, ◌≤◌, ◌≡◌, ◌≢◌, refl, sym, ap, ◌∙◌, inl, inr, Bool, true, false, List,
  [], ◌∷◌, ◌==◌, if◌then◌else◌, arith, leb, get_or, length, length-replicate, Bool-cases,
}
use firedrake.Container.HashSet.{
  HashSet, capacities, max_counts, find_in, chain, find_bucket1, relink_all, rehash, expand_from,
  expand_if_needed, shrink_at, shrink_from, shrink_if_needed,
}
use firedrake.Container.HashSet.Chains.{by_address, AllGood, none_linked}
use firedrake.Container.HashSet.Rehash.{lookup, lookup-rehashed, length-relink_all}
use firedrake.Container.HashSet.Good.{AllGood-rehashed}

-- The set compares keys by address, its table has `capacity` chains, and they are good.
pub record IsValid (s : HashSet) : Type 0 where
  pub compares : s.compare_function ≡ by_address
  pub full : length s.buckets ≡ s.capacity
  pub pos : 0 < s.capacity
  pub good : AllGood s.hash_function s.capacity 0 s.buckets

-- Every key finds in `t` what it finds in `s`.
pub record Keeps (s t : HashSet) : Type 0 where
  pub valid : IsValid t
  pub finds : (key : ℕ) → key ≢ 0 → find_bucket1 t key ≡ find_bucket1 s key

pub find-lookup :
    (s : HashSet) (key : ℕ)
    → IsValid s
    → find_bucket1 s key ≡ lookup s.hash_function s.capacity s.buckets key
unfolding find_bucket1
find-lookup s key v = ap (λ f. find_in f (chain s key) key) v.compares

-- `hashset_rehash` of a valid set to a capacity that is not 0 leaves a valid set in which every key but
-- `NULL` finds what it found.
pub rehash-Keeps :
    (memory : Bool) (s : HashSet) (capacity : ℕ)
    → IsValid s
    → 0 < capacity
    → Keeps s (rehash memory s capacity)
unfolding rehash
rehash-Keeps false s capacity v pos = record { valid = v; finds = λ key nz. refl }
rehash-Keeps true s capacity v pos =
    let table = relink_all s.hash_function capacity s.buckets (none_linked capacity) in
    let t : HashSet = record s { capacity = capacity; buckets = table } in
    let v' : IsValid t = record {
      compares = v.compares;
      full =
          length-relink_all s.hash_function capacity pos s.buckets (none_linked capacity)
          ∙ length-replicate capacity [];
      pos = pos;
      good = AllGood-rehashed s.hash_function capacity pos s.capacity s.buckets v.good;
    } in
    record {
      valid = v';
      finds = λ key nz.
          find-lookup t key v'
          ∙ lookup-rehashed s.hash_function capacity pos s.capacity s.buckets key v.good nz
          ∙ sym (find-lookup s key v);
    }

all_pos : List ℕ → Bool
all_pos [] = true
all_pos (x ∷ xs) = let rest = all_pos xs in if x == 0 then false else rest

get-all_pos : (xs : List ℕ) (i : ℕ) → all_pos xs ≡ true → i < length xs → 0 < get_or xs i 0
unfolding all_pos
get-all_pos [] i e h = absurd (omega arith)
get-all_pos (x ∷ xs) zero e h = ground arith
get-all_pos (x ∷ xs) (suc i) e h = get-all_pos xs i (ground arith) (omega arith)

capacities_pos : (i : ℕ) → i < 42 → 0 < get_or capacities i 0
unfolding all_pos
capacities_pos i h = get-all_pos capacities i refl h

expand_from-Keeps :
    (memory : Bool) (s : HashSet) (n i : ℕ)
    → IsValid s
    → i + n ≤ 41
    → Keeps s (expand_from memory s n i)
unfolding expand_from
expand_from-Keeps memory s zero i v h = record { valid = v; finds = λ key nz. refl }
expand_from-Keeps memory s (suc n) i v h = elim (Bool-cases (s.capacity == get_or capacities i 0)) [
  | inl here ↦ rw here (elim (Bool-cases (leb (get_or max_counts i 0) s.count)) [
    | inl full ↦ rw full (
        rehash-Keeps memory s (get_or capacities (i + 1) 0) v
          (capacities_pos (i + 1) (omega arith)))
    | inr room ↦ rw room (record { valid = v; finds = λ key nz. refl })
  ])
  | inr other ↦ rw other (expand_from-Keeps memory s n (i + 1) v (omega arith))
]

shrink_at-Keeps :
    (memory : Bool) (s : HashSet) (i : ℕ) → IsValid s → i < 42 → Keeps s (shrink_at memory s i)
unfolding shrink_at
shrink_at-Keeps memory s i v h = elim (Bool-cases (s.capacity == get_or capacities i 0)) [
  | inl here ↦ rw here (elim (Bool-cases (leb s.count (get_or max_counts (i - 1) 0))) [
    | inl few ↦ rw few (
        rehash-Keeps memory s (get_or capacities (i - 1) 0) v
          (capacities_pos (i - 1) (omega arith)))
    | inr many ↦ rw many (record { valid = v; finds = λ key nz. refl })
  ])
  | inr other ↦ rw other (record { valid = v; finds = λ key nz. refl })
]

shrink_from-Keeps :
    (memory : Bool) (s : HashSet) (n i : ℕ)
    → IsValid s
    → i + n < 43
    → Keeps s (shrink_from memory s n i)
unfolding shrink_from
shrink_from-Keeps memory s zero i v h = record { valid = v; finds = λ key nz. refl }
shrink_from-Keeps memory s (suc n) i v h =
    let once = shrink_at-Keeps memory s i v (omega arith) in
    let rest = shrink_from-Keeps memory (shrink_at memory s i) n (i + 1) once.valid (omega arith) in
    record { valid = rest.valid; finds = λ key nz. rest.finds key nz ∙ once.finds key nz }

pub expand_if_needed-Keeps :
    (memory : Bool) (s : HashSet) → IsValid s → Keeps s (expand_if_needed memory s)
unfolding expand_if_needed
expand_if_needed-Keeps memory s v = expand_from-Keeps memory s 41 0 v (omega arith)

pub shrink_if_needed-Keeps :
    (memory : Bool) (s : HashSet) → IsValid s → Keeps s (shrink_if_needed memory s)
unfolding shrink_if_needed
shrink_if_needed-Keeps memory s v = shrink_from-Keeps memory s 40 1 v (omega arith)
