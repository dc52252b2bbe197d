-- ===== src/Container/HashSet/Rehash.antt =====
-- `hashset_rehash` keeps what every key finds.
use firedrake.Common.{
  ℕ, suc, ◌+◌, ◌-◌, ◌%◌, ◌<◌, ◌≤◌, ◌≡◌, ◌≢◌, refl, sym, ap, ◌∙◌, inl, inr, true, false, Option,
  none, some, List, [], ◌∷◌, ◌==◌, if◌then◌else◌, arith, get_or, set, length, length-replicate,
  length-set, Bool-cases, ℕ_discrete,
}
use mathlib.Core.Path.{subst}
use native.Mathlib.Nat.{mod-lt}
use firedrake.Container.HashSet.{Bucket, Chain, find_in, relink, relink_chain, relink_all}
use firedrake.Container.HashSet.Chains.{
  by_address, Good, AllGood, find-other, chain-set_self, chain-set_ne, chain-replicate, none_linked,
}

-- what a key finds in a table of chains
abbrev pub lookup : (ℕ → ℕ) → (capacity : ℕ) → List Chain → (key : ℕ) → Option Bucket
lookup hash capacity bs key = find_in by_address (get_or bs (hash key % capacity) []) key

abbrev pub or_else : Option Bucket → Option Bucket → Option Bucket
or_else none o = o
or_else (some b) o = some b

or_else-none : (o : Option Bucket) → or_else o none ≡ o
or_else-none none = refl
or_else-none (some b) = refl

module _ (hash : ℕ → ℕ) (capacity : ℕ) (pos : 0 < capacity) where
  pub length-relink :
      (b : Bucket) (bs : List Chain) → length (relink hash capacity b bs) ≡ length bs
  unfolding relink
  length-relink b bs = elim (Bool-cases (b.key == 0)) [
    | inl e ↦ rw e refl
    | inr e ↦
        rw e (length-set bs (hash b.key % capacity) (b ∷ get_or bs (hash b.key % capacity) []))
  ]

  -- a bucket linked again is found by its key, and changes nothing for the others
  pub lookup-relink :
      (b : Bucket) (bs : List Chain) (key : ℕ)
      → length bs ≡ capacity
      → key ≢ 0
      → lookup hash capacity (relink hash capacity b bs) key
        ≡ (if b.key == key then some b else lookup hash capacity bs key)
  unfolding relink find_in
  lookup-relink b bs key len nz = elim (ℕ_discrete b.key 0) [
    | yes z ↦
        let test : (b.key == 0) ≡ true = ground arith in
        let miss : (b.key == key) ≡ false = ground arith in rw (test, miss) refl
    | no keyed ↦
        let test : (b.key == 0) ≡ false = ground arith in
        let i = hash b.key % capacity in
        let new : Chain = b ∷ get_or bs i [] in
        let low : i < length bs = let small = mod-lt (hash b.key) pos in omega arith in
        rw test (elim (ℕ_discrete i (hash key % capacity)) [
          | yes same ↦
              let there : get_or (set bs i new) (hash key % capacity) []
                  ≡ b ∷ get_or bs (hash key % capacity) [] =
                subst (λ j. get_or (set bs i new) j [] ≡ b ∷ get_or bs j []) same
                  (chain-set_self bs i new low) in
              ap (λ c. find_in by_address c key) there
          | no other ↦
              let there = chain-set_ne bs i (hash key % capacity) new other in
              let differs : b.key ≢ key = λ e. other (ap (λ k. hash k % capacity) e) in
              let miss : (b.key == key) ≡ false = ground arith in
              ap (λ c. find_in by_address c key) there
              ∙ sym (ap (λ o. if o then some b else lookup hash capacity bs key) miss)
        ])
  ]

  pub length-relink_chain :
      (c : Chain) (bs : List Chain) → length (relink_chain hash capacity c bs) ≡ length bs
  unfolding relink_chain
  length-relink_chain [] bs = refl
  length-relink_chain (b ∷ c) bs =
      length-relink_chain c (relink hash capacity b bs) ∙ length-relink b bs

  module _ (old_capacity : ℕ) where
    pub lookup-relink_chain :
        (i : ℕ) (c : Chain) (bs : List Chain) (key : ℕ)
        → Good hash old_capacity i c
        → length bs ≡ capacity
        → key ≢ 0
        → lookup hash capacity (relink_chain hash capacity c bs) key
          ≡ or_else (find_in by_address c key) (lookup hash capacity bs key)
    unfolding relink_chain find_in Good
    lookup-relink_chain i [] bs key g len nz = refl
    lookup-relink_chain i (b ∷ c) bs key (here, g) len nz =
        let once = lookup-relink b bs key len nz in
        let rest =
          lookup-relink_chain i c (relink hash capacity b bs) key g (length-relink b bs ∙ len) nz in
        elim (ℕ_discrete b.key key) [
          | yes e ↦
              let test : (b.key == key) ≡ true = ground arith in
              let alone : find_in by_address c key ≡ none =
                subst (λ k. find_in by_address c k ≡ none) e (here (λ z. nz (sym e ∙ z))).1 in
              rest
              ∙ ap (λ o. or_else o (lookup hash capacity (relink hash capacity b bs) key)) alone
              ∙ once
              ∙ ap (λ o. if o then some b else lookup hash capacity bs key) test
              ∙ sym (
                  ap
                    (λ o.
                      or_else (if o then some b else find_in by_address c key)
                        (lookup hash capacity bs key))
                    test)
          | no differs ↦
              let test : (b.key == key) ≡ false = ground arith in
              rest
              ∙ ap (or_else (find_in by_address c key))
                  (once ∙ ap (λ o. if o then some b else lookup hash capacity bs key) test)
              ∙ sym (
                  ap
                    (λ o.
                      or_else (if o then some b else find_in by_address c key)
                        (lookup hash capacity bs key))
                    test)
        ]

  pub length-relink_all : (cs bs : List Chain) → length (relink_all hash capacity cs bs) ≡ length bs
  unfolding relink_all
  length-relink_all [] bs = refl
  length-relink_all (c ∷ cs) bs =
      length-relink_all cs (relink_chain hash capacity c bs) ∙ length-relink_chain c bs

  -- what a key finds in the chains from place `i` on, when its place is `j`
  found_at : (cs : List Chain) (i j key : ℕ) → Option Bucket
  found_at [] i j key = none
  found_at (c ∷ cs) i j key =
      let rest = found_at cs (i + 1) j key in if i == j then find_in by_address c key else rest

  found_at-past : (cs : List Chain) (i j key : ℕ) → j < i → found_at cs i j key ≡ none
  unfolding found_at
  found_at-past [] i j key h = refl
  found_at-past (c ∷ cs) i j key h =
      let test : (i == j) ≡ false = ground arith in
      rw test (found_at-past cs (i + 1) j key (omega arith))

  found_at-get :
      (cs : List Chain) (i j key : ℕ)
      → i ≤ j
      → found_at cs i j key ≡ find_in by_address (get_or cs (j - i) []) key
  unfolding found_at find_in
  found_at-get [] i j key h = refl
  found_at-get (c ∷ cs) i j key h = elim (ℕ_discrete i j) [
    | yes e ↦
        let test : (i == j) ≡ true = ground arith in
        let off : j - i ≡ 0 = omega arith in
        rw test (ap (λ n. find_in by_address (get_or (c ∷ cs) n []) key) (sym off))
    | no ne ↦
        let test : (i == j) ≡ false = ground arith in
        let off : j - i ≡ suc (j - (i + 1)) = omega arith in
        rw test (
          found_at-get cs (i + 1) j key (omega arith)
          ∙ ap (λ n. find_in by_address (get_or (c ∷ cs) n []) key) (sym off))
  ]

  module _ (old_capacity : ℕ) where
    lookup-relink_all :
        (i : ℕ) (cs bs : List Chain) (key : ℕ)
        → AllGood hash old_capacity i cs
        → length bs ≡ capacity
        → key ≢ 0
        → lookup hash capacity (relink_all hash capacity cs bs) key
          ≡ or_else (found_at cs i (hash key % old_capacity) key) (lookup hash capacity bs key)
    unfolding relink_all found_at AllGood
    lookup-relink_all i [] bs key g len nz = refl
    lookup-relink_all i (c ∷ cs) bs key (here, g) len nz =
        let j = hash key % old_capacity in
        let once = lookup-relink_chain old_capacity i c bs key here len nz in
        let rest =
          lookup-relink_all (i + 1) cs (relink_chain hash capacity c bs) key g
            (length-relink_chain c bs ∙ len) nz in
        elim (ℕ_discrete i j) [
          | yes e ↦
              let test : (i == j) ≡ true = ground arith in
              let past = found_at-past cs (i + 1) j key (omega arith) in
              rw test (
                rest
                ∙ ap (λ o. or_else o (lookup hash capacity (relink_chain hash capacity c bs) key))
                    past
                ∙ once)
          | no ne ↦
              let test : (i == j) ≡ false = ground arith in
              let miss = find-other hash old_capacity i c key here nz (λ e. ne (sym e)) in
              rw test (
                rest
                ∙ ap (or_else (found_at cs (i + 1) j key))
                    (once ∙ ap (λ o. or_else o (lookup hash capacity bs key)) miss))
        ]

    pub lookup-rehashed :
        (cs : List Chain) (key : ℕ)
        → AllGood hash old_capacity 0 cs
        → key ≢ 0
        → lookup hash capacity (relink_all hash capacity cs (none_linked capacity)) key
          ≡ lookup hash old_capacity cs key
    unfolding find_in
    lookup-rehashed cs key g nz =
        let j = hash key % old_capacity in
        let whole =
          lookup-relink_all 0 cs (none_linked capacity) key g (length-replicate capacity []) nz in
        let empty : lookup hash capacity (none_linked capacity) key ≡ none =
          ap (λ c. find_in by_address c key) (chain-replicate capacity (hash key % capacity)) in
        let off : j - 0 ≡ j = omega arith in
        whole
        ∙ ap (or_else (found_at cs 0 j key)) empty
        ∙ or_else-none (found_at cs 0 j key)
        ∙ found_at-get cs 0 j key (omega arith)
        ∙ ap (λ n. find_in by_address (get_or cs n []) key) off
