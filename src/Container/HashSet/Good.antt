-- ===== src/Container/HashSet/Good.antt =====
-- The operations on chains keep them good: the keys distinct, each in its place.
use firedrake.Common.{
  ℕ, zero, suc, ◌+◌, ◌%◌, ◌<◌, ◌≡◌, ◌≢◌, refl, sym, ap, ◌∙◌, ◌⊎◌, inl, inr, true, false, Option,
  none, some, List, [], ◌∷◌, ◌==◌, if◌then◌else◌, arith, get_or, set, length, length-replicate,
  Bool-cases, ℕ_discrete,
}
use mathlib.Core.Path.{subst}
use firedrake.Container.HashSet.{Bucket, Chain, find_in, put_in, relink, relink_chain, relink_all}
use firedrake.Container.HashSet.Chains.{
  by_address, Good, AllGood, find-other, chain-replicate, none_linked,
}
use firedrake.Container.HashSet.Rehash.{
  lookup, lookup-relink, length-relink, length-relink_chain, lookup-relink_chain, or_else,
}

-- A change to a bucket keeps its key or takes it away.
abbrev pub Modest : (Bucket → Bucket) → Type 0
Modest change = (b : Bucket) → ((change b).key ≡ b.key) ⊎ ((change b).key ≡ 0)

find-put_in-none :
    (c : Chain) (key k : ℕ) (change : Bucket → Bucket)
    → Modest change
    → k ≢ 0
    → find_in by_address c k ≡ none
    → find_in by_address (put_in by_address c key change) k ≡ none
unfolding find_in put_in
find-put_in-none [] key k change m nz e = refl
find-put_in-none (b ∷ c) key k change m nz e =
    let differs : b.key ≢ k =
      λ h. let test : (b.key == k) ≡ true = ground arith in absurd (ground arith) in
    let miss : (b.key == k) ≡ false = ground arith in
    let rest : find_in by_address c k ≡ none = ground arith in
    elim (Bool-cases (b.key == key)) [
      | inl hit ↦
          let gone : ((change b).key == k) ≡ false = elim (m b) [
            | inl same ↦ ground arith
            | inr z ↦ ground arith
          ] in
          rw hit (ap (λ o. if o then some (change b) else find_in by_address c k) gone ∙ rest)
      | inr other ↦ rw other (
          ap (λ o. if o then some b else find_in by_address (put_in by_address c key change) k) miss
          ∙ find-put_in-none c key k change m nz rest)
    ]

module _ (hash : ℕ → ℕ) (capacity : ℕ) where
  pub Good-put_in :
      (i : ℕ) (c : Chain) (key : ℕ) (change : Bucket → Bucket)
      → Modest change
      → Good hash capacity i c
      → Good hash capacity i (put_in by_address c key change)
  unfolding Good put_in
  Good-put_in i [] key change m g = g
  Good-put_in i (b ∷ c) key change m (here, g) = elim (Bool-cases (b.key == key)) [
    | inl hit ↦ rw hit (
      (λ nz. elim (m b) [
        | inl same ↦
            let (place, alone) = here (λ z. nz (same ∙ z)) in
            (ap (λ k. hash k % capacity) same ∙ place, ap (find_in by_address c) same ∙ alone)
        | inr z ↦ absurd (nz z)
      ]),
      g,
    )
    | inr other ↦ rw other (
      (λ nz.
          let (place, alone) = here nz in (place, find-put_in-none c key b.key change m nz alone)),
      Good-put_in i c key change m g,
    )
  ]

  pub AllGood-get :
      (i n : ℕ) (cs : List Chain)
      → AllGood hash capacity i cs
      → Good hash capacity (i + n) (get_or cs n [])
  unfolding AllGood Good
  AllGood-get i n [] g = tt
  AllGood-get i zero (c ∷ cs) (here, g) =
      let e : i ≡ i + 0 = omega arith in subst (λ j. Good hash capacity j c) e here
  AllGood-get i (suc n) (c ∷ cs) (here, g) =
      let e : i + 1 + n ≡ i + suc n = omega arith in
      subst (λ j. Good hash capacity j (get_or cs n [])) e (AllGood-get (i + 1) n cs g)

  pub AllGood-set :
      (i n : ℕ) (cs : List Chain) (c : Chain)
      → AllGood hash capacity i cs
      → Good hash capacity (i + n) c
      → AllGood hash capacity i (set cs n c)
  unfolding AllGood
  AllGood-set i n [] c g new = g
  AllGood-set i zero (d ∷ cs) c (here, g) new =
      let e : i + 0 ≡ i = omega arith in (subst (λ j. Good hash capacity j c) e new, g)
  AllGood-set i (suc n) (d ∷ cs) c (here, g) new =
      let e : i + suc n ≡ i + 1 + n = omega arith in
      (here, AllGood-set (i + 1) n cs c g (subst (λ j. Good hash capacity j c) e new))

  pub AllGood-none : (i n : ℕ) → AllGood hash capacity i (none_linked n)
  unfolding AllGood Good
  AllGood-none i zero = tt
  AllGood-none i (suc n) = (tt, AllGood-none (i + 1) n)

  -- at its own place, a chain of the whole table is good
  pub AllGood-chain :
      (cs : List Chain) (key : ℕ)
      → AllGood hash capacity 0 cs
      → Good hash capacity (hash key % capacity) (get_or cs (hash key % capacity) [])
  AllGood-chain cs key g =
      let j = hash key % capacity in
      let e : 0 + j ≡ j = omega arith in
      subst (λ m. Good hash capacity m (get_or cs j [])) e (AllGood-get 0 j cs g)

  pub AllGood-with :
      (cs : List Chain) (key : ℕ) (c : Chain)
      → AllGood hash capacity 0 cs
      → Good hash capacity (hash key % capacity) c
      → AllGood hash capacity 0 (set cs (hash key % capacity) c)
  AllGood-with cs key c g new =
      let j = hash key % capacity in
      let e : j ≡ 0 + j = omega arith in
      AllGood-set 0 j cs c g (subst (λ m. Good hash capacity m c) e new)

lookup-none : (n : ℕ) (hash : ℕ → ℕ) (k : ℕ) → lookup hash n (none_linked n) k ≡ none
unfolding find_in
lookup-none n hash k = ap (λ c. find_in by_address c k) (chain-replicate n (hash k % n))

module _ (hash : ℕ → ℕ) (capacity : ℕ) (pos : 0 < capacity) where
  -- A bucket is linked again into a table where its key is not found.
  AllGood-relink :
      (b : Bucket) (bs : List Chain)
      → AllGood hash capacity 0 bs
      → (b.key ≢ 0 → lookup hash capacity bs b.key ≡ none)
      → AllGood hash capacity 0 (relink hash capacity b bs)
  unfolding relink Good
  AllGood-relink b bs g new = elim (ℕ_discrete b.key 0) [
    | yes z ↦ let test : (b.key == 0) ≡ true = ground arith in rw test g
    | no nz ↦
        let test : (b.key == 0) ≡ false = ground arith in
        rw test (
          AllGood-with hash capacity bs b.key (b ∷ get_or bs (hash b.key % capacity) []) g
            ((λ nz'. (refl, new nz)), AllGood-chain hash capacity bs b.key g))
  ]

  -- the keys that are still to be linked are not found in the new table
  abbrev Unlinked : (ℕ → Option Bucket) → List Chain → Type 0
  Unlinked found bs =
      (k : ℕ) → k ≢ 0 → (b : Bucket) → found k ≡ some b → lookup hash capacity bs k ≡ none

  AllGood-relink_chain :
      (old i : ℕ) (c : Chain) (bs : List Chain)
      → Good hash old i c
      → length bs ≡ capacity
      → Unlinked (find_in by_address c) bs
      → AllGood hash capacity 0 bs
      → AllGood hash capacity 0 (relink_chain hash capacity c bs)
  unfolding relink_chain Good find_in
  AllGood-relink_chain old i [] bs g len new good = good
  AllGood-relink_chain old i (b ∷ c) bs (here, g) len new good =
      AllGood-relink_chain old i c (relink hash capacity b bs) g
        (length-relink hash capacity pos b bs ∙ len)
        (λ k nz b' e.
          let differs : b.key ≢ k = λ h.
            let alone = (here (λ z. nz (sym h ∙ z))).1 in
            let alone' : find_in by_address c k ≡ none =
              subst (λ m. find_in by_address c m ≡ none) h alone in
            absurd (cc) in
          let miss : (b.key == k) ≡ false = ground arith in
          let before =
            new k nz b' (ap (λ o. if o then some b else find_in by_address c k) miss ∙ e) in
          lookup-relink hash capacity pos b bs k len nz
          ∙ ap (λ o. if o then some b else lookup hash capacity bs k) miss
          ∙ before)
        (AllGood-relink b bs good (λ nz. new b.key nz b (
          let hit : (b.key == b.key) ≡ true = ground arith in
          ap (λ o. if o then some b else find_in by_address c b.key) hit)))

  found-place :
      (old i : ℕ) (c : Chain) (k : ℕ) (b : Bucket)
      → Good hash old i c
      → k ≢ 0
      → find_in by_address c k ≡ some b
      → hash k % old ≡ i
  found-place old i c k b g nz e = elim (ℕ_discrete (hash k % old) i) [
    | yes same ↦ same
    | no other ↦ let miss = find-other hash old i c k g nz other in absurd (cc)
  ]

  AllGood-relink_all :
      (old i : ℕ) (cs bs : List Chain)
      → AllGood hash old i cs
      → length bs ≡ capacity
      → ((n : ℕ) → Unlinked (find_in by_address (get_or cs n [])) bs)
      → AllGood hash capacity 0 bs
      → AllGood hash capacity 0 (relink_all hash capacity cs bs)
  unfolding relink_all AllGood
  AllGood-relink_all old i [] bs g len new good = good
  AllGood-relink_all old i (c ∷ cs) bs (here, g) len new good =
      AllGood-relink_all old (i + 1) cs (relink_chain hash capacity c bs) g
        (length-relink_chain hash capacity pos c bs ∙ len)
        (λ n k nz b e.
          let place =
            found-place old (i + 1 + n) (get_or cs n []) k b (AllGood-get hash old (i + 1) n cs g)
              nz e in
          let miss = find-other hash old i c k here nz (omega arith) in
          lookup-relink_chain hash capacity pos old i c bs k here len nz
          ∙ ap (λ o. or_else o (lookup hash capacity bs k)) miss
          ∙ new (suc n) k nz b e)
        (AllGood-relink_chain old i c bs here len (new 0) good)

  pub AllGood-rehashed :
      (old : ℕ) (cs : List Chain)
      → AllGood hash old 0 cs
      → AllGood hash capacity 0 (relink_all hash capacity cs (none_linked capacity))
  AllGood-rehashed old cs g =
      AllGood-relink_all old 0 cs (none_linked capacity) g (length-replicate capacity [])
        (λ n k nz b e. lookup-none capacity hash k) (AllGood-none hash capacity 0 capacity)
