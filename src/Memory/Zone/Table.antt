-- ===== src/Memory/Zone/Table.antt =====
-- Searching, updating and counting the entries of a zone's table.
use firedrake.Common.{
  ℕ, zero, suc, ◌+◌, ◌<◌, ◌≤◌, ◌≡◌, ◌≢◌, refl, ap, Bool, true, false, not, none, some, arith,
  if◌then◌else◌, Bool-cases, inl, inr, ℕ_discrete,
}
use mathlib.Core.Path.{subst}
use firedrake.Memory.Zone.{Allocation, is_free, is_used, is_unused, find, set_entry}

-- What a search finds is in the part searched, and has the property.
pub find-some :
    (p : Allocation → Bool) (t : ℕ → Allocation) (rounds i k : ℕ)
    → find p t rounds i ≡ some k
    → (i ≤ k) × (k < i + rounds) × (p (t k) ≡ true)
unfolding find
find-some p t zero i k e = absurd (cc)
find-some p t (suc rounds) i k e = elim (Bool-cases (p (t i))) [
  | inl hit ↦ let found : i ≡ k = ground arith in (omega arith, omega arith, rw (← found) hit)
  | inr miss ↦
      let (low, high, good) = find-some p t rounds (i + 1) k (ground arith) in
      (omega arith, omega arith, good)
]

-- What it does not find is not there.
pub find-none :
    (p : Allocation → Bool) (t : ℕ → Allocation) (rounds i k : ℕ)
    → find p t rounds i ≡ none
    → i ≤ k
    → k < i + rounds
    → p (t k) ≡ false
unfolding find
find-none p t zero i k e low high = absurd (omega arith)
find-none p t (suc rounds) i k e low high = elim (Bool-cases (p (t i))) [
  | inl hit ↦ ground arith
  | inr miss ↦ elim (ℕ_discrete i k) [
    | yes here ↦ rw (← here) miss
    | no other ↦ find-none p t rounds (i + 1) k (ground arith) (omega arith) (omega arith)
  ]
]

pub set_entry_self : (t : ℕ → Allocation) (i : ℕ) (a : Allocation) → set_entry t i a i ≡ a
unfolding set_entry
set_entry_self t i a = ground arith

pub set_entry_ne :
    (t : ℕ → Allocation) (i : ℕ) (a : Allocation) (k : ℕ) → k ≢ i → set_entry t i a k ≡ t k
unfolding set_entry
set_entry_ne t i a k ne = ground arith

-- the entries below `n` that have a property
unfoldable pub count : (Allocation → Bool) → (ℕ → Allocation) → ℕ → ℕ
count p t zero = 0
count p t (suc n) = if p (t n) then suc (count p t n) else count p t n

count-set_above :
    (p : Allocation → Bool) (t : ℕ → Allocation) (i : ℕ) (a : Allocation) (n : ℕ)
    → n ≤ i
    → count p (set_entry t i a) n ≡ count p t n
unfolding count
count-set_above p t i a zero le = refl
count-set_above p t i a (suc n) le =
    rw (set_entry_ne t i a n (omega arith), count-set_above p t i a n (omega arith)) refl

pub count-below :
    (p : Allocation → Bool) (s t : ℕ → Allocation) (n : ℕ)
    → ((k : ℕ) → k < n → s k ≡ t k)
    → count p s n ≡ count p t n
unfolding count
count-below p s t zero same = refl
count-below p s t (suc n) same =
    rw (same n (omega arith), count-below p s t n (λ k lt. same k (omega arith))) refl

abbrev pub one_if : Bool → ℕ
one_if b = if b then 1 else 0

pub count-set_last :
    (p : Allocation → Bool) (t : ℕ → Allocation) (i : ℕ) (a : Allocation)
    → count p (set_entry t i a) (suc i) ≡ count p t i + one_if (p a)
unfolding count
count-set_last p t i a =
    rw (set_entry_self t i a) (ground (arith, count-set_above p t i a i (omega arith)))

-- An update changes a count by the entry that goes and the one that comes.
pub count-set_entry :
    (p : Allocation → Bool) (t : ℕ → Allocation) (i : ℕ) (a : Allocation) (n : ℕ)
    → i < n
    → count p (set_entry t i a) n + one_if (p (t i)) ≡ count p t n + one_if (p a)
unfolding count
count-set_entry p t i a zero lt = absurd (omega arith)
count-set_entry p t i a (suc n) lt = elim (ℕ_discrete i n) [
  | yes e ↦
      let here : set_entry t i a n ≡ a =
        subst (λ m. set_entry t i a m ≡ a) e (set_entry_self t i a) in
      ground (arith, here, ap t e, count-set_above p t i a n)
  | no ne ↦ rw (set_entry_ne t i a n (omega arith)) (ground (arith, count-set_entry p t i a n))
]

pub count_le : (p : Allocation → Bool) (t : ℕ → Allocation) (n : ℕ) → count p t n ≤ n
unfolding count
count_le p t zero = omega arith
count_le p t (suc n) = ground (arith, count_le p t n)

pub count-pos :
    (p : Allocation → Bool) (t : ℕ → Allocation) (i n : ℕ)
    → i < n
    → p (t i) ≡ true
    → 0 < count p t n
unfolding count
count-pos p t i zero lt e = absurd (omega arith)
count-pos p t i (suc n) lt e = elim (ℕ_discrete i n) [
  | yes same ↦ ground arith
  | no ne ↦ ground (arith, count-pos p t i n)
]

-- Two entries count twice.
pub count-two :
    (p : Allocation → Bool) (t : ℕ → Allocation) (i j n : ℕ)
    → i < n
    → j < n
    → i ≢ j
    → p (t i) ≡ true
    → p (t j) ≡ true
    → 1 < count p t n
unfolding count
count-two p t i j zero lt lt' ne e e' = absurd (omega arith)
count-two p t i j (suc n) lt lt' ne e e' = elim (ℕ_discrete i n) [
  | yes same ↦ ground (arith, count-pos p t j n)
  | no other ↦ elim (ℕ_discrete j n) [
    | yes same ↦ ground (arith, count-pos p t i n)
    | no other' ↦ ground (arith, count-two p t i j n)
  ]
]

-- The live entries are the free and the used ones.
pub count_kinds :
    (t : ℕ → Allocation) (n : ℕ)
    → count (λ a. not (is_unused a.kind)) t n
      ≡ count (λ a. is_free a.kind) t n + count (λ a. is_used a.kind) t n
unfolding count
count_kinds t zero = refl
count_kinds t (suc n) = ground (arith, count_kinds t n)
