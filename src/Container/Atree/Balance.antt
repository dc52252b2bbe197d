-- ===== src/Container/Atree/Balance.antt =====
-- The levels of the tree: what `atree_insert` keeps, and that no path is longer than the array for it.
use firedrake.Common.{
  ℕ, suc, ◌+◌, ◌*◌, ◌^◌, ◌≤◌, ◌<◌, max, ◌≡◌, refl, ap, ◌∙◌, true, false, ◌⊎◌, arith, ltb, dec_lt,
  ◌==◌, ==_iff, lt→ltb, inl, inr, Bool-cases,
}
use native.Mathlib.Nat.{pow-suc, pow-le-pow_right}
use firedrake.Container.Atree.{Node, nil, node, level, link1, skew, split, size}

-- Andersson's conditions: link 0 is a level below, link 1 on the same level or one below, and two
-- links 1 in a row go a level down.
abbrev pub IsBalanced : Node → Type 0
IsBalanced nil = Unit {0}
IsBalanced (node k d v a b) =
    (IsBalanced a)
    × (IsBalanced b)
    × (level a + 1 ≡ v)
    × (level b ≤ v)
    × (v ≤ level b + 1)
    × (level (link1 b) < v)

abbrev pub link0 : Node → Node
link0 nil = nil
link0 (node k d v a b) = a

-- What an insertion into `old` leaves: the level is the same, or is one up, and then both links are a
-- level down, which happens only where link 1 was on the level.
abbrev pub Grown : Node → Node → Type 0
Grown old new =
    IsBalanced new
    × ((level new ≡ level old)
        ⊎ ((level new ≡ level old + 1)
            × (level (link1 old) ≡ level old)
            × (level (link0 new) ≡ level old)
            × (level (link1 new) ≡ level old)))

lt→ne : (x y : ℕ) → x < y → (x == y) ≡ false
lt→ne x y h = ground arith

==→eq : (x y : ℕ) → (x == y) ≡ true → x ≡ y
==→eq x y h = ground arith

ne→lt : (x y : ℕ) → (x == y) ≡ false → x ≤ y → x < y
ne→lt x y h le = ground arith

-- A link is no level above its node.
link1_lem : (n : Node) → IsBalanced n → level (link1 n) ≤ level n
link1_lem nil h = omega arith
link1_lem (node k d v a b) h = h.3

pub Grown-left :
    (k d v : ℕ) (a a' b : Node)
    → IsBalanced (node k d v a b)
    → Grown a a'
    → Grown (node k d v a b) (split (skew (node k d v a' b)))
unfolding skew split
Grown-left k d v a nil nil h g = ground arith
Grown-left k d v a nil (node k2 d2 v2 a2 b2) h g = ground arith
Grown-left k d v a (node k1 d1 v1 a1 nil) nil h g = ground arith
Grown-left k d v a (node k1 d1 v1 a1 (node k3 d3 v3 a3 b3)) nil h g = ground arith
Grown-left k d v a (node k1 d1 v1 a1 nil) (node k2 d2 v2 a2 b2) h g = ground arith
Grown-left k d v a (node k1 d1 v1 a1 (node k3 d3 v3 a3 b3)) (node k2 d2 v2 a2 b2) h
      (bal, inl same) =
    rw (lt→ne v1 v (omega arith), lt→ne (level b2) v h.5)
      ((bal, h.1, omega arith, h.3, h.4, h.5), inl refl)
Grown-left k d v a (node k1 d1 v1 a1 (node k3 d3 v3 a3 b3)) (node k2 d2 v2 a2 b2) h (bal, inr up) =
    let same : v1 ≡ v = omega arith in
    let turns : (v1 == v) ≡ true = (==_iff v1 v).1 same in
    let pos : ltb 0 v ≡ true = lt→ltb 0 v (omega arith) in
    let pos1 : ltb 0 v1 ≡ true = lt→ltb 0 v1 (omega arith) in
    rw (turns, pos)
      (elim (Bool-cases (v2 == v1)) [
        | inl grows ↦
            let e : v2 ≡ v1 = ==→eq _ _ grows in
            rw (grows, pos1)
              ((
                (bal, h.1, omega arith, omega arith, omega arith, omega arith),
                inr (omega arith, omega arith, omega arith, omega arith),
              ))
        | inr stays ↦
            let lower : v2 < v1 = ne→lt _ _ stays (omega arith) in
            rw stays (
              (
                (
                  bal.0,
                  (bal.1, h.1, omega arith, h.3, h.4, h.5),
                  bal.2,
                  omega arith,
                  omega arith,
                  lower,
                ),
                inl same,
              ))
      ])

pub Grown-right :
    (k d v : ℕ) (a b b' : Node)
    → IsBalanced (node k d v a b)
    → Grown b b'
    → Grown (node k d v a b) (split (skew (node k d v a b')))
unfolding skew split
Grown-right k d v nil b nil h g = ground arith
Grown-right k d v nil b (node k2 d2 v2 a2 b2) h g = ground arith
Grown-right k d v (node k1 d1 v1 a1 b1) b nil h g = ground arith
Grown-right k d v (node k1 d1 v1 a1 b1) b (node k2 d2 v2 a2 b2) h (bal, inl same) =
    rw (lt→ne v1 v (omega arith)) (elim (Bool-cases (level b2 == v)) [
      | inl grows ↦
          let e : level b2 ≡ v = ==→eq _ _ grows in
          let pos : ltb 0 v ≡ true = lt→ltb 0 v (omega arith) in
          rw (grows, pos)
            ((
              (
                (h.0, bal.0, h.2, omega arith, omega arith, omega (arith, link1_lem a2 bal.0)),
                bal.1,
                omega arith,
                omega arith,
                omega arith,
                omega arith,
              ),
              inr (omega arith, omega arith, refl, e),
            ))
      | inr stays ↦
          let lower : level b2 < v = ne→lt _ _ stays (omega arith) in
          rw stays ((h.0, bal, h.2, omega arith, omega arith, lower), inl refl)
    ])
Grown-right k d v (node k1 d1 v1 a1 b1) b (node k2 d2 v2 a2 b2) h (bal, inr up) =
    rw (lt→ne v1 v (omega arith), lt→ne (level b2) v (omega arith))
      ((h.0, bal, h.2, omega arith, omega arith, omega arith), inl refl)

-- the nodes on the longest path
abbrev pub height : Node → ℕ
height nil = 0
height (node k d v a b) = suc (max (height a) (height b))

height_bounds :
    (n : Node)
    → IsBalanced n
    → (height n ≤ 2 * level n)
      × (level (link1 n) < level n → height n + 1 ≤ 2 * level n)
      × (2 ^ level n ≤ size n + 1)
unfolding size
height_bounds nil h = (omega arith, (λ lt. absurd (omega arith)), omega arith)
height_bounds (node k d v a b) h =
    let (a_high, a_flat, a_full) = height_bounds a h.0 in
    let (b_high, b_flat, b_full) = height_bounds b h.1 in
    let doubled : 2 ^ v ≡ 2 ^ level a * 2 =
      ap (λ (n : ℕ). 2 ^ n) (omega arith) ∙ pow-suc 2 (level a) in
    let b_fuller : 2 ^ level a ≤ 2 ^ level b = pow-le-pow_right (omega arith) (omega arith) in
    let b_flat' : height b + 1 ≤ 2 * v = elim (dec_lt (level b) v) [
      | yes lower ↦ omega arith
      | no same ↦ omega (arith, b_flat (omega arith))
    ] in
    (omega arith, (λ lower. omega arith), omega arith)

-- A balanced tree of fewer than 2 ^ 31 nodes is at most 62 nodes high.
pub height-le : (n : Node) → IsBalanced n → size n < 2 ^ 31 → height n ≤ 62
height-le n h small =
    let (high, _, full) = height_bounds n h in
    elim (dec_lt 31 (level n)) [
      | yes deep ↦
          let much : 2 ^ 32 ≤ 2 ^ level n =
            pow-le-pow_right (omega arith) {i = 32} {j = level n} deep in
          absurd (omega arith)
      | no flat ↦ omega arith
    ]
