-- ===== src/Container/HashSet/Iterate.antt =====
-- `hashset_iteratorGetNextObject`, and the hash functions of hashset.c over pointers and strings.
pub mod Callback
use firedrake.Common.{
  ℕ, zero, suc, ◌+◌, ◌/◌, ◌^◌, ◌≡◌, refl, sym, ap, ◌∙◌, inl, inr, Bool, Option, none, some, List,
  [], ◌∷◌, ◌++◌, ◌==◌, if◌then◌else◌, arith, drop, add32, mul32, Bool-cases, Option-cases, some_inj,
}
use mathlib.Core.Path.{subst}
use firedrake.Container.HashSet.{Bucket, Chain, objects_in, all_objects}

-- the first bucket of a chain that has an object, and the chain behind it
pub first_in : Chain → Option (Bucket × Chain)
first_in [] = none
first_in (b ∷ bs) = let rest = first_in bs in if b.data_pointer == 0 then rest else some (b, bs)

-- the second `while`, over the chains from `index` on
pub scan : List Chain → (index : ℕ) → Option (Bucket × Chain × ℕ)
scan [] index = none
scan (c ∷ cs) index =
    let rest = scan cs (index + 1) in
    elim (first_in c) [ none ↦ rest | some found ↦ some (found.0, found.1, index + 1) ]

-- The next bucket with an object, and the state behind it: the rest of a chain, and the index of the
-- chain to look at then. The client takes the object or the key of the bucket.
pub next_bucket : List Chain → (rest : Chain) → (index : ℕ) → Option (Bucket × Chain × ℕ)
next_bucket buckets rest index = elim (first_in rest) [
  | none ↦ scan (drop index buckets) index
  | some found ↦ some (found.0, found.1, index)
]

-- `hash_pointer`
pub hash_pointer : ℕ → ℕ
hash_pointer key = key

-- `hash_pointerCompare` and `hash_integerCompare`
pub hash_pointer_compare : ℕ → ℕ → Bool
hash_pointer_compare a b = a == b

-- a round of the loop of `hash_cstring`
pub mix : (result character : ℕ) → ℕ
mix result character =
    let a = add32 result character in let b = add32 a (mul32 a (2 ^ 10)) in add32 b (b / 2 ^ 6)

pub mix_all : (result : ℕ) → List ℕ → ℕ
mix_all result [] = result
mix_all result (c ∷ cs) = mix_all (mix result c) cs

-- `hash_cstring`, of a string's characters without the last, the `\0`
pub hash_cstring : List ℕ → ℕ
hash_cstring cs =
    let r = mix_all 0 cs in
    let a = add32 r (mul32 r (2 ^ 3)) in let b = add32 a (a / 2 ^ 11) in add32 b (mul32 b (2 ^ 15))

-- the objects that are still to come
abbrev pub remaining : List Chain → (rest : Chain) → (index : ℕ) → List ℕ
remaining buckets rest index = objects_in rest ++ all_objects (drop index buckets)

first_in-none : (c : Chain) → first_in c ≡ none → objects_in c ≡ []
unfolding first_in objects_in
first_in-none [] e = refl
first_in-none (b ∷ bs) e = elim (Bool-cases (b.data_pointer == 0)) [
  | inl empty ↦ rw empty (first_in-none bs (ground arith))
  | inr held ↦ absurd (ground arith)
]

-- What a search for the next bucket has to give.
pub Next : List ℕ → (List Chain) → Option (Bucket × Chain × ℕ) → Type 0
Next left buckets none = left ≡ []
Next left buckets (some found) = left ≡ (found.0).data_pointer ∷ remaining buckets found.1 found.2

objects_first :
    (c : Chain) (b : Bucket) (behind : Chain)
    → first_in c ≡ some (b, behind)
    → objects_in c ≡ b.data_pointer ∷ objects_in behind
unfolding first_in objects_in
objects_first [] b behind e = absurd (cc)
objects_first (d ∷ bs) b behind e = elim (Bool-cases (d.data_pointer == 0)) [
  | inl empty ↦ rw empty (objects_first bs b behind (ground arith))
  | inr held ↦
      let same : (d, bs) ≡ (b, behind) = some_inj (ground arith) in
      rw held (ap (λ (p : Bucket × Chain). (p.0).data_pointer ∷ objects_in p.1) same)
]

tail : List Chain → List Chain
tail [] = []
tail (c ∷ cs) = cs

drop-next :
    (index : ℕ) (xs cs : List Chain) (c : Chain) → drop index xs ≡ c ∷ cs → drop (index + 1) xs ≡ cs
unfolding tail
drop-next zero [] cs c e = absurd (cc)
drop-next zero (x ∷ xs) cs c e = ap tail e
drop-next (suc n) [] cs c e = absurd (cc)
drop-next (suc n) (x ∷ xs) cs c e =
    let next : suc n + 1 ≡ suc (n + 1) = omega arith in rw next (drop-next n xs cs c e)

scan-Next :
    (buckets cs : List Chain) (index : ℕ)
    → drop index buckets ≡ cs
    → Next (all_objects cs) buckets (scan cs index)
unfolding scan Next all_objects
scan-Next buckets [] index e = refl
scan-Next buckets (c ∷ cs) index e =
    let later = drop-next index buckets cs c e in
    elim (Option-cases (first_in c)) [
      | inl miss ↦
          let step : scan (c ∷ cs) index ≡ scan cs (index + 1) = rw (miss, scan) refl in
          subst (Next (all_objects (c ∷ cs)) buckets) (sym step) (
            subst (λ xs. Next (xs ++ all_objects cs) buckets (scan cs (index + 1)))
              (sym (first_in-none c miss)) (scan-Next buckets cs (index + 1) later))
      | inr (found, hit) ↦
          let first = objects_first c found.0 found.1 hit in
          let step : scan (c ∷ cs) index ≡ some (found.0, found.1, index + 1) =
            rw (hit, scan) refl in
          subst (Next (all_objects (c ∷ cs)) buckets) (sym step) (
            ap (λ xs. xs ++ all_objects cs) first
            ∙ ap (λ xs. (found.0).data_pointer ∷ objects_in found.1 ++ all_objects xs) (sym later))
    ]

-- The iterator of a hash set gives an object whenever one is left, the first of those that are, and
-- then has the others left: in a row, its results are those of `hashset_allObjects`.
pub next_bucket-Next :
    (buckets : List Chain) (rest : Chain) (index : ℕ)
    → Next (remaining buckets rest index) buckets (next_bucket buckets rest index)
unfolding next_bucket Next
next_bucket-Next buckets rest index = elim (Option-cases (first_in rest)) [
  | inl miss ↦
      let left = all_objects (drop index buckets) in
      let step : next_bucket buckets rest index ≡ scan (drop index buckets) index =
        rw (miss, next_bucket) refl in
      subst (Next (remaining buckets rest index) buckets) (sym step) (
        subst (λ xs. Next (xs ++ left) buckets (scan (drop index buckets) index))
          (sym (first_in-none rest miss)) (scan-Next buckets (drop index buckets) index refl))
  | inr (found, hit) ↦
      let first = objects_first rest found.0 found.1 hit in
      let step : next_bucket buckets rest index ≡ some (found.0, found.1, index) =
        rw (hit, next_bucket) refl in
      subst (Next (remaining buckets rest index) buckets) (sym step)
        (ap (λ xs. xs ++ all_objects (drop index buckets)) first)
]
