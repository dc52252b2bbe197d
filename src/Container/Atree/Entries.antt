-- ===== src/Container/Atree/Entries.antt =====
-- The entries of a tree in the order of its keys, which turning nodes and changing levels keeps.
use mathlib.Core.List.{append_assoc, append-nil}
use firedrake.Common.{
  ℕ, zero, suc, ◌+◌, ◌-◌, ◌*◌, ◌≤◌, ◌≡◌, refl, ap, ◌∙◌, true, false, List, [], ◌∷◌, ◌++◌, arith,
  ltb, ◌==◌, if◌then◌else◌, length, length-append, inl, inr, Bool-cases, ◌&&◌, ◌||◌,
}
use firedrake.Container.Atree.{
  Node, nil, node, Frame, frame, level, skew, split, plug, climb, climb_back, rebalance, set_level,
  on_link1, destroy_from, destroy, size, Atree,
}

abbrev pub Entry : Type 0
Entry = ℕ × ℕ

-- the keys with their data, in order
abbrev pub entries : Node → List Entry
entries nil = []
entries (node k d v a b) = entries a ++ (k, d) ∷ entries b

ruleset shapes = (append_assoc, append-nil)

pub entries-skew : (n : Node) → entries (skew n) ≡ entries n
unfolding skew
entries-skew nil = refl
entries-skew (node k d v nil b) = refl
entries-skew (node k d v (node k' d' v' a' b') b) = elim (Bool-cases (v' == v && ltb 0 v)) [
  | inl turns ↦ rw turns (rw append_assoc)
  | inr stays ↦ rw stays
]

pub entries-split : (n : Node) → entries (split n) ≡ entries n
unfolding split
entries-split nil = refl
entries-split (node k d v a nil) = refl
entries-split (node k d v a (node k' d' v' a' b')) = elim (Bool-cases (level b' == v && ltb 0 v)) [
  | inl turns ↦ rw turns (rw append_assoc)
  | inr stays ↦ rw stays
]

entries-set_level : (n : Node) (v : ℕ) → entries (set_level n v) ≡ entries n
entries-set_level nil v = refl
entries-set_level (node k d _ a b) v = refl

entries-on_link1 :
    (f : Node → Node)
    → ((n : Node) → entries (f n) ≡ entries n)
    → (n : Node) → entries (on_link1 f n) ≡ entries n
entries-on_link1 f same nil = refl
entries-on_link1 f same (node k d v a b) = rw (same b)

pub entries-rebalance : (n : Node) → entries (rebalance n) ≡ entries n
unfolding rebalance
entries-rebalance nil = refl
entries-rebalance (node k d v a b) =
    elim (Bool-cases (ltb (level a) (v - 1) || ltb (level b) (v - 1))) [
      | inl sinks ↦
          let b' = if ltb (v - 1) (level b) then set_level b (v - 1) else b in
          let same : entries b' ≡ entries b = elim (Bool-cases (ltb (v - 1) (level b))) [
            | inl high ↦ rw high (entries-set_level b (v - 1))
            | inr low ↦ rw low
          ] in
          let n0 = node k d (v - 1) a b' in
          let n1 = on_link1 skew (skew n0) in
          let n2 = on_link1 (on_link1 skew) n1 in
          rw sinks (
            entries-on_link1 split entries-split (split n2)
            ∙ entries-split n2
            ∙ entries-on_link1 (on_link1 skew) (entries-on_link1 skew entries-skew) n1
            ∙ entries-on_link1 skew entries-skew (skew n0)
            ∙ entries-skew n0
            ∙ ap (λ (es : List Entry). entries a ++ (k, d) ∷ es) same)
      | inr stays ↦ rw stays
    ]

-- The entries before and after a place that `path` leads to.
abbrev pub before : List Frame → List Entry
before [] = []
before (frame k d v other true ∷ path) = before path ++ entries other ++ (k, d) ∷ []
before (frame k d v other false ∷ path) = before path

abbrev pub after : List Frame → List Entry
after [] = []
after (frame k d v other true ∷ path) = after path
after (frame k d v other false ∷ path) = (k, d) ∷ entries other ++ after path

-- the entries of a tree with `n` at the place
abbrev around : List Frame → List Entry → List Entry
around path es = before path ++ es ++ after path

around-plug :
    (f : Frame) (path : List Frame) (n : Node)
    → around path (entries (plug f n)) ≡ around (f ∷ path) (entries n)
unfolding plug
around-plug (frame k d v other true) path n = simp shapes
around-plug (frame k d v other false) path n = simp shapes

pub entries-climb :
    (path : List Frame) (n : Node) → entries (climb path n) ≡ before path ++ entries n ++ after path
unfolding climb
entries-climb [] n = simp shapes
entries-climb (f ∷ path) n =
    entries-climb path (split (skew (plug f n)))
    ∙ ap (around path) (entries-split (skew (plug f n)) ∙ entries-skew (plug f n))
    ∙ around-plug f path n

pub entries-climb_back :
    (path : List Frame) (n : Node)
    → entries (climb_back path n) ≡ before path ++ entries n ++ after path
unfolding climb_back
entries-climb_back [] n = simp shapes
entries-climb_back (f ∷ path) n =
    entries-climb_back path (rebalance (plug f n))
    ∙ ap (around path) (entries-rebalance (plug f n))
    ∙ around-plug f path n

-- the nodes on the way down the links 0
abbrev spine : Node → ℕ
spine nil = 0
spine (node k d v a b) = suc (spine b)

spine-le-size : (n : Node) → spine n ≤ size n
unfolding size
spine-le-size nil = omega arith
spine-le-size (node k d v a b) = omega (arith, spine-le-size b)

destroy_from_lem :
    (fuel : ℕ) (n : Node) → 2 * size n ≤ fuel + spine n → destroy_from fuel n ≡ entries n
unfolding destroy_from size
destroy_from_lem fuel nil h = refl
destroy_from_lem zero (node k d v a b) h = absurd (omega (arith, spine-le-size b))
destroy_from_lem (suc fuel) (node k d v nil b) h =
    ap (λ (es : List Entry). (k, d) ∷ es) (destroy_from_lem fuel b (omega arith))
destroy_from_lem (suc fuel) (node k d v (node k' d' v' a' b') b) h =
    destroy_from_lem fuel (node k' d' v' a' (node k d v b' b)) (omega arith) ∙ simp shapes

-- The loop of `atree_destroy` ends within two rounds for each node, and frees every node once, in the
-- order of the entries.
pub destroy-entries : (t : Atree) → destroy t ≡ entries t.root
unfolding destroy
destroy-entries t = destroy_from_lem (2 * size t.root) t.root (omega arith)

pub size-entries : (n : Node) → size n ≡ length (entries n)
unfolding size
size-entries nil = refl
size-entries (node k d v a b) =
    omega (arith, size-entries a, size-entries b, length-append (entries a) ((k, d) ∷ entries b))
