-- ===== src/Container/HashSet/Chains.antt =====
-- Searching a chain, and the tables of chains.
use firedrake.Common.{
  ℕ, zero, suc, ◌+◌, ◌%◌, ◌<◌, ◌≡◌, ◌≢◌, refl, sym, ap, ◌∙◌, Bool, true, false, none, some, List,
  [], ◌∷◌, ◌==◌, if◌then◌else◌, arith, get_or, set, length, replicate, ℕ_discrete, some_inj,
}
use mathlib.Core.Path.{subst}
use firedrake.Container.HashSet.{Bucket, Chain, find_in, put_in}

pub chain-set_self :
    (bs : List Chain) (i : ℕ) (c : Chain) → i < length bs → get_or (set bs i c) i [] ≡ c
chain-set_self [] i c h = absurd (omega arith)
chain-set_self (b ∷ bs) zero c h = refl
chain-set_self (b ∷ bs) (suc i) c h = chain-set_self bs i c (omega arith)

pub chain-set_ne :
    (bs : List Chain) (i j : ℕ) (c : Chain) → i ≢ j → get_or (set bs i c) j [] ≡ get_or bs j []
chain-set_ne [] i j c h = refl
chain-set_ne (b ∷ bs) zero zero c h = absurd (h refl)
chain-set_ne (b ∷ bs) zero (suc j) c h = refl
chain-set_ne (b ∷ bs) (suc i) zero c h = refl
chain-set_ne (b ∷ bs) (suc i) (suc j) c h = chain-set_ne bs i j c (λ e. h (ap suc e))

abbrev pub none_linked : ℕ → List Chain
none_linked n = replicate n []

pub chain-replicate : (n i : ℕ) → get_or (none_linked n) i [] ≡ []
chain-replicate zero i = refl
chain-replicate (suc n) zero = refl
chain-replicate (suc n) (suc i) = chain-replicate n i

-- the comparison by address, which is the default
abbrev pub by_address : ℕ → ℕ → Bool
by_address a b = a == b

-- no bucket of the chain has the key
pub Absent : Chain → (key : ℕ) → Type 0
Absent c key = find_in by_address c key ≡ none

-- the keys that are not `NULL` are distinct, and the chain is that of each
unfoldable pub Good : (ℕ → ℕ) → (capacity i : ℕ) → Chain → Type 0
Good hash capacity i [] = Unit
Good hash capacity i (b ∷ c) =
    (b.key ≢ 0 → (hash b.key % capacity ≡ i) × (find_in by_address c b.key ≡ none))
    × Good hash capacity i c

-- the chains from place `i` on are good
unfoldable pub AllGood : (ℕ → ℕ) → (capacity i : ℕ) → List Chain → Type 0
AllGood hash capacity i [] = Unit
AllGood hash capacity i (c ∷ cs) = Good hash capacity i c × AllGood hash capacity (i + 1) cs

-- A key whose chain is another is not found.
pub find-other :
    (hash : ℕ → ℕ) (capacity i : ℕ) (c : Chain) (key : ℕ)
    → Good hash capacity i c
    → key ≢ 0
    → hash key % capacity ≢ i
    → find_in by_address c key ≡ none
unfolding Good find_in
find-other hash capacity i [] key g nz ne = refl
find-other hash capacity i (b ∷ c) key (here, g) nz ne = elim (ℕ_discrete b.key key) [
  | yes e ↦
      let place = (here (λ z. nz (sym e ∙ z))).0 in
      let moved = ap (λ k. hash k % capacity) e in absurd (ne (sym moved ∙ place))
  | no other ↦
      let test : (b.key == key) ≡ false = ground arith in
      rw test (find-other hash capacity i c key g nz ne)
]

-- The search after a change to the bucket of another key.
pub find-put_in_other :
    (c : Chain) (key other : ℕ) (change : Bucket → Bucket)
    → other ≢ key
    → ((b : Bucket) → b.key ≡ key → (change b).key ≢ other)
    → find_in by_address (put_in by_address c key change) other ≡ find_in by_address c other
unfolding find_in put_in
find-put_in_other [] key other change ne ne' = refl
find-put_in_other (b ∷ c) key other change ne ne' = elim (ℕ_discrete b.key key) [
  | yes e ↦
      let test : (b.key == key) ≡ true = ground arith in
      let differs = ne' b e in
      let miss : ((change b).key == other) ≡ false = ground arith in
      let miss' : (b.key == other) ≡ false = ground arith in rw (test, miss, miss') refl
  | no differs ↦
      let test : (b.key == key) ≡ false = ground arith in
      let rest = find-put_in_other c key other change ne ne' in
      rw test (ap (λ o. if b.key == other then some b else o) rest)
]

-- and to the bucket of the key itself, which stays the key's
pub find-put_in :
    (c : Chain) (key : ℕ) (old : Bucket) (change : Bucket → Bucket)
    → find_in by_address c key ≡ some old
    → ((b : Bucket) → b.key ≡ key → (change b).key ≡ key)
    → find_in by_address (put_in by_address c key change) key ≡ some (change old)
unfolding find_in put_in
find-put_in [] key old change e same = absurd (cc)
find-put_in (b ∷ c) key old change e same = elim (ℕ_discrete b.key key) [
  | yes here ↦
      let test : (b.key == key) ≡ true = ground arith in
      let kept = same b here in
      let hit : ((change b).key == key) ≡ true = ground arith in
      let found : b ≡ old = some_inj (ground arith) in
      rw test (
        ap (λ o. if o then some (change b) else find_in by_address c key) hit
        ∙ ap (λ x. some (change x)) found)
  | no differs ↦
      let test : (b.key == key) ≡ false = ground arith in
      let rest = find-put_in c key old change (ground arith) same in
      rw test (
        ap (λ o. if b.key == key then some b else o) rest
        ∙ ap (λ o. if o then some b else some (change old)) test)
]

-- where the bucket loses its key, and no other has it, the key is not found
pub find-cleared :
    (hash : ℕ → ℕ) (capacity i : ℕ) (c : Chain) (key : ℕ) (change : Bucket → Bucket)
    → Good hash capacity i c
    → key ≢ 0
    → ((b : Bucket) → (change b).key ≡ 0)
    → find_in by_address (put_in by_address c key change) key ≡ none
unfolding find_in put_in Good
find-cleared hash capacity i [] key change g nz lost = refl
find-cleared hash capacity i (b ∷ c) key change (here, g) nz lost = elim (ℕ_discrete b.key key) [
  | yes e ↦
      let test : (b.key == key) ≡ true = ground arith in
      let gone = lost b in
      let miss : ((change b).key == key) ≡ false = ground arith in
      let alone : find_in by_address c key ≡ none =
        subst (λ k. find_in by_address c k ≡ none) e (here (λ z. nz (sym e ∙ z))).1 in
      rw test (ap (λ o. if o then some (change b) else find_in by_address c key) miss ∙ alone)
  | no differs ↦
      let test : (b.key == key) ≡ false = ground arith in
      let rest = find-cleared hash capacity i c key change g nz lost in
      rw test (
        ap (λ o. if b.key == key then some b else o) rest
        ∙ ap (λ o. if o then some b else none) test)
]
