-- ===== src/Container/Array/Sort/Occurs.antt =====
-- How often a word occurs among the first ones of a memory, and what keeps that.
use firedrake.Common.{
  ℕ, zero, suc, ◌+◌, ◌<◌, ◌≤◌, ◌≡◌, ◌≢◌, refl, sym, ap, ◌∙◌, List, [], ◌∷◌, arith, ◌==◌,
  if◌then◌else◌, length, set, length-set, ℕ_discrete,
}
use firedrake.Container.Array.Words.{get-set_self, get-set_ne}
use firedrake.Container.Array.Sort.{word_at, exchange}

-- among the first `n` words
pub occurs : (x n : ℕ) → List ℕ → ℕ
occurs x zero d = 0
occurs x (suc n) d = (if word_at d n == x then 1 else 0) + occurs x n d

abbrev pub one_if_at : (x w : ℕ) → ℕ
one_if_at x w = if w == x then 1 else 0

occurs-set_above : (x n : ℕ) (d : List ℕ) (i v : ℕ) → n ≤ i → occurs x n (set d i v) ≡ occurs x n d
unfolding occurs
occurs-set_above x zero d i v h = refl
occurs-set_above x (suc n) d i v h =
    rw (get-set_ne d i n v (omega arith), occurs-set_above x n d i v (omega arith)) refl

-- A write among them takes one word away and adds one.
pub occurs-set :
    (x n : ℕ) (d : List ℕ) (i v : ℕ)
    → i < n
    → n ≤ length d
    → occurs x n (set d i v) + one_if_at x (word_at d i) ≡ occurs x n d + one_if_at x v
unfolding occurs
occurs-set x zero d i v h le = absurd (omega arith)
occurs-set x (suc n) d i v h le = elim (ℕ_discrete i n) [
  | yes e ↦ rw e (
      rw (get-set_self d n v (omega arith), occurs-set_above x n d n v (omega arith)) (omega arith))
  | no ne ↦
      rw (get-set_ne d i n v ne) (omega (arith, occurs-set x n d i v (omega arith) (omega arith)))
]

-- The same words, each as often, are the first `n` of both, and the memories have one size.
pub record Rearranged (n : ℕ) (d d' : List ℕ) : Type 0 where
  pub size : length d' ≡ length d
  pub same : (x : ℕ) → occurs x n d' ≡ occurs x n d

pub Rearranged-refl : (n : ℕ) (d : List ℕ) → Rearranged n d d
Rearranged-refl n d = record { size = refl; same = λ x. refl }

pub Rearranged-trans :
    {n : ℕ} {d d' d'' : List ℕ} → Rearranged n d d' → Rearranged n d' d'' → Rearranged n d d''
Rearranged-trans r s = record { size = s.size ∙ r.size; same = λ x. s.same x ∙ r.same x }

pub exchange-Rearranged :
    (n : ℕ) (d : List ℕ) (i j : ℕ) → i < n → j < n → n ≤ length d → Rearranged n d (exchange d i j)
unfolding exchange
exchange-Rearranged n d i j hi hj le =
    let first = set d i (word_at d j) in
    let long = length-set d i (word_at d j) in
    record {
      size = length-set first j (word_at d i) ∙ long;
      same = λ x.
          let a = occurs-set x n d i (word_at d j) hi le in
          let b = occurs-set x n first j (word_at d i) hj (omega arith) in
          elim (ℕ_discrete i j) [
            | yes e ↦
                let kept : word_at first j ≡ word_at d j =
                  rw (← e) (get-set_self d i (word_at d i) (omega arith)) in
                let here = ap (word_at d) e in
                let kept' = ap (one_if_at x) kept in
                let here' = ap (one_if_at x) here in omega arith
            | no ne ↦
                let kept = get-set_ne d i j (word_at d j) ne in
                let kept' = ap (one_if_at x) kept in omega arith
          ];
    }

-- A word held back stands for the one at its place.
pub held-Rearranged :
    (n : ℕ) (d : List ℕ) (i k temp : ℕ)
    → i < n
    → k < n
    → i ≢ k
    → n ≤ length d
    → Rearranged n (set d i temp) (set (set d i (word_at d k)) k temp)
held-Rearranged n d i k temp hi hk ne le =
    let first = set d i (word_at d k) in
    let long = length-set d i (word_at d k) in
    let long' = length-set d i temp in
    record {
      size = length-set first k temp ∙ long ∙ sym long';
      same = λ x.
          let a = occurs-set x n d i (word_at d k) hi le in
          let b = occurs-set x n first k temp hk (omega arith) in
          let c = occurs-set x n d i temp hi le in
          let kept = ap (one_if_at x) (get-set_ne d i k (word_at d k) ne) in omega arith;
    }

-- Writing a word where it is changes nothing.
pub set-same : (d : List ℕ) (i : ℕ) → set d i (word_at d i) ≡ d
set-same [] i = refl
set-same (x ∷ d) zero = refl
set-same (x ∷ d) (suc i) = ap (λ r. x ∷ r) (set-same d i)
