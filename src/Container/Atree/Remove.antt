-- ===== src/Container/Atree/Remove.antt =====
-- `atree_remove` on the entries of a tree in order.
use mathlib.Core.List.{append_assoc, append-nil}
use firedrake.Common.{
  ℕ, suc, ◌+◌, ◌-◌, ◌^◌, ◌≤◌, ◌<◌, ◌≡◌, ◌≢◌, refl, sym, ap, ◌∙◌, true, false, List, [], ◌∷◌, ◌++◌,
  ◌⊎◌, Option, some, arith, ltb, dec_lt, length, inl, inr, Bool-cases, sub32,
}
use firedrake.Container.Atree.{
  Node, nil, node, Frame, frame, Comparison, Atree, Walk, missing, found, walk, heir, finish,
  remove_single, remove_double, unlink, remove, max_height, is_nil,
}
use firedrake.Container.Atree.Entries.{Entry, entries, before, after, entries-climb_back}
use firedrake.Container.Atree.Balance.{height}
use firedrake.Container.Atree.Order.{
  Ranks, InOrder, AllBelow, AllAbove, InOrder-append, AllBelow-imp, AllAbove-imp,
}
use firedrake.Container.Atree.Insert.{cmp_lt, cmp_gt, cmp_eq}
use firedrake.Container.Atree.Table.{IsValid, height-IsSmall}

ruleset shapes = (append_assoc, append-nil)

-- the entries before and after the node with the links `a` and `b` that `path` leads to
abbrev pub front : List Frame → Node → List Entry
front path a = before path ++ entries a

abbrev pub rear : List Frame → Node → List Entry
rear path b = entries b ++ after path

-- What the entries are after the removal of the entry of the key `k`, of the node with the links `a`
-- and `b` that `path` leads to. Without link 0, or below the root without link 1, the entry is gone.
-- A root without link 1 takes all the entries with it. With both links, the key keeps its place and
-- takes the object of the next entry, which is gone.
abbrev pub Removal : List Frame → (k : ℕ) → (a b : Node) → List Entry → Type 0
Removal path k nil b es = es ≡ front path nil ++ rear path b
Removal [] k (node k1 d1 v1 a1 b1) nil es = es ≡ []
Removal (f ∷ path) k (node k1 d1 v1 a1 b1) nil es =
    es ≡ front (f ∷ path) (node k1 d1 v1 a1 b1) ++ rear (f ∷ path) nil
Removal path k (node k1 d1 v1 a1 b1) (node k2 d2 v2 a2 b2) es =
    (next : Entry) × (rest : List Entry) × (rear path (node k2 d2 v2 a2 b2) ≡ next ∷ rest)
    × (es ≡ front path (node k1 d1 v1 a1 b1) ++ (k, next.1) ∷ rest)

heir-object :
    (k d v : ℕ) (a b : Node) (path path' : List Frame)
    → (heir k d v a b path).1 ≡ (heir k d v a b path').1
unfolding heir
heir-object k d v nil b path path' = refl
heir-object k d v (node k' d' v' a' b') b path path' =
    heir-object k' d' v' a' b' (frame k d v b false ∷ path) (frame k d v b false ∷ path')

-- The heir is the first entry of its tree, and the path to it leaves out nothing else.
heir-entries :
    (k d v : ℕ) (a b : Node) (path : List Frame)
    → (key : ℕ) × (entries (node k d v a b) ++ after path
        ≡ (key, (heir k d v a b path).1) ∷ entries (heir k d v a b path).2
          ++ after (heir k d v a b path).0)
      × (before (heir k d v a b path).0 ≡ before path)
unfolding heir
heir-entries k d v nil b path = (k, refl, refl)
heir-entries k d v (node k' d' v' a' b') b path =
    let (key, es, same) = heir-entries k' d' v' a' b' (frame k d v b false ∷ path) in
    (key, append_assoc (entries (node k' d' v' a' b')) ((k, d) ∷ entries b) (after path) ∙ es, same)

unlink-Removal :
    (path : List Frame) (k d v : ℕ) (a b : Node)
    → Removal path k a b (entries (unlink path k d v a b).0)
unfolding unlink remove_single remove_double
unlink-Removal [] k d v nil b = simp shapes
unlink-Removal (f ∷ path) k d v nil b = entries-climb_back (f ∷ path) b ∙ simp shapes
unlink-Removal [] k d v (node k1 d1 v1 a1 b1) nil = refl
unlink-Removal (f ∷ path) k d v (node k1 d1 v1 a1 b1) nil =
    entries-climb_back (f ∷ path) (node k1 d1 v1 a1 b1) ∙ simp shapes
unlink-Removal path k d v (node k1 d1 v1 a1 b1) (node k2 d2 v2 a2 b2) =
    let object = (heir k2 d2 v2 a2 b2 []).1 in
    let path' = frame k object v (node k1 d1 v1 a1 b1) true ∷ path in
    let h = heir k2 d2 v2 a2 b2 path' in
    let (key, es, same) = heir-entries k2 d2 v2 a2 b2 path' in
    let rest = entries h.2 ++ after h.0 in
    (
      (key, object),
      rest,
      es ∙ ap (λ (o : ℕ). (key, o) ∷ rest) (heir-object k2 d2 v2 a2 b2 path' []),
      entries-climb_back h.0 h.2
          ∙ append_assoc (before h.0) (entries h.2) (after h.0)
          ∙ ap (λ (xs : List Entry). xs ++ rest) same
          ∙ simp shapes,
    )

length-heir :
    (k d v : ℕ) (a b : Node) (path : List Frame)
    → length (heir k d v a b path).0 + 1 ≤ length path + height (node k d v a b)
unfolding heir
length-heir k d v nil b path = omega arith
length-heir k d v (node k' d' v' a' b') b path =
    omega (arith, length-heir k' d' v' a' b' (frame k d v b false ∷ path))

length-unlink :
    (path : List Frame) (k d v : ℕ) (a b : Node)
    → (unlink path k d v a b).1 ≤ length path + height (node k d v a b)
unfolding unlink
length-unlink path k d v nil b = omega arith
length-unlink path k d v (node k1 d1 v1 a1 b1) nil = omega arith
length-unlink path k d v (node k1 d1 v1 a1 b1) (node k2 d2 v2 a2 b2) =
    let object = (heir k2 d2 v2 a2 b2 []).1 in
    omega (arith, length-heir k2 d2 v2 a2 b2 (frame k object v (node k1 d1 v1 a1 b1) true ∷ path))

-- The key of the rank `r` is not among the entries.
abbrev pub IsMissing : (ℕ → ℕ) → ℕ → List Entry → Type 0
IsMissing rank r [] = Unit {0}
IsMissing rank r ((k, d) ∷ es) = (rank k ≢ r) × IsMissing rank r es

IsMissing-AllBelow :
    (rank : ℕ → ℕ) (r : ℕ) (es : List Entry) → AllBelow rank r es → IsMissing rank r es
IsMissing-AllBelow rank r [] h = tt
IsMissing-AllBelow rank r (e ∷ es) h = (omega arith, IsMissing-AllBelow rank r es h.1)

IsMissing-AllAbove :
    (rank : ℕ → ℕ) (r : ℕ) (es : List Entry) → AllAbove rank (suc r) es → IsMissing rank r es
IsMissing-AllAbove rank r [] h = tt
IsMissing-AllAbove rank r (e ∷ es) h = (omega arith, IsMissing-AllAbove rank r es h.1)

IsMissing-append :
    (rank : ℕ → ℕ) (r : ℕ) (xs ys : List Entry)
    → IsMissing rank r xs
    → IsMissing rank r ys
    → IsMissing rank r (xs ++ ys)
IsMissing-append rank r [] ys h g = g
IsMissing-append rank r (x ∷ xs) ys h g = (h.0, IsMissing-append rank r xs ys h.1 g)

-- the whole tree of a node that a path leads to
abbrev pub tree_of : List Frame → Node → Node
tree_of [] n = n
tree_of (frame k d v other true ∷ path) n = tree_of path (node k d v other n)
tree_of (frame k d v other false ∷ path) n = tree_of path (node k d v n other)

-- what the way down to a key has found
abbrev Walked : (ℕ → ℕ) → ℕ → Node → List Frame → Walk → Type 0
Walked rank key n path (missing depth) =
    IsMissing rank (rank key) (entries n) × (depth ≤ length path + height n)
Walked rank key n path (found path' k d v a b) =
    (before path ++ entries n ++ after path ≡ front path' a ++ (k, d) ∷ rear path' b)
    × (rank k ≡ rank key)
    × (tree_of path n ≡ tree_of path' (node k d v a b))
    × (length path' + height (node k d v a b) ≤ length path + height n)

-- The way from a node goes on to the node `m`.
further :
    (rank : ℕ → ℕ) (key : ℕ) (n m : Node) (path path' : List Frame) (w : Walk)
    → (IsMissing rank (rank key) (entries m) → IsMissing rank (rank key) (entries n))
    → before path ++ entries n ++ after path ≡ before path' ++ entries m ++ after path'
    → length path' + height m ≤ length path + height n
    → tree_of path n ≡ tree_of path' m
    → Walked rank key m path' w
    → Walked rank key n path w
further rank key n m path path' (missing depth) lost same short whole h = (lost h.0, omega arith)
further rank key n m path path' (found p k d v a b) lost same short whole h =
    (same ∙ h.0, h.1, whole ∙ h.2, omega arith)

module _ (cmp : Comparison) (rank : ℕ → ℕ) (ranks : Ranks cmp rank) where
  walk-Walked :
      (key : ℕ) (n : Node) (path : List Frame)
      → InOrder rank 1 (entries n)
      → Walked rank key n path (walk cmp key n path)
  unfolding walk
  walk-Walked key nil path h = (tt, omega arith)
  walk-Walked key (node k d v a b) path h =
      let parts = InOrder-append rank 1 (entries a) (k, d) (entries b) h in
      elim (dec_lt (rank k) (rank key)) [
        | yes low ↦
            let path' = frame k d v a true ∷ path in
            let below =
              AllBelow-imp rank (suc (rank k) - 1) (rank key) (entries a) (omega arith) parts.1 in
            rw (cmp_lt cmp rank ranks k key low, walk)
              (further rank key (node k d v a b) b path path' (walk cmp key b path')
                (λ m.
                  IsMissing-append rank (rank key) (entries a) ((k, d) ∷ entries b)
                    (IsMissing-AllBelow rank (rank key) (entries a) below) (omega arith, m))
                (simp shapes) (omega arith) refl (walk-Walked key b path' parts.3))
        | no high ↦ elim (dec_lt (rank key) (rank k)) [
          | yes above ↦
              let path' = frame k d v b false ∷ path in
              let over =
                AllAbove-imp rank (rank k + 1) (suc (rank key)) (entries b) (omega arith) parts.2 in
              rw (cmp_gt cmp rank ranks k key above, walk)
                (further rank key (node k d v a b) a path path' (walk cmp key a path')
                  (λ m.
                    IsMissing-append rank (rank key) (entries a) ((k, d) ∷ entries b) m
                      (omega arith, IsMissing-AllAbove rank (rank key) (entries b) over))
                  (simp shapes) (omega arith) refl (walk-Walked key a path' parts.0))
          | no same ↦
              rw (cmp_eq cmp rank ranks k key (omega arith), walk)
                (simp shapes, omega arith, refl, omega arith)
        ]
      ]

-- What `atree_remove` does to a tree: nothing where it does not hold the key, and otherwise the removal
-- of the node that `path` leads to in the tree, whose key has the rank of the key, and whose links are
-- `a` and `b`.
abbrev pub Removed : (ℕ → ℕ) → ℕ → Atree → Option Atree → Type 0
Removed rank key t result =
    (IsMissing rank (rank key) (entries t.root) × (result ≡ some t))
    ⊎ ((path : List Frame) × (k : ℕ) × (d : ℕ) × (v : ℕ) × (a : Node) × (b : Node) × (t' : Atree)
        × (t.root ≡ tree_of path (node k d v a b))
        × (entries t.root ≡ front path a ++ (k, d) ∷ rear path b)
        × (rank k ≡ rank key)
        × (result ≡ some t')
        × (t'.nodes ≡ sub32 t.nodes 1)
        × Removal path k a b (entries t'.root))

finish-Removed :
    (rank : ℕ → ℕ) (t : Atree) (key : ℕ) (w : Walk)
    → height t.root ≤ 62
    → Walked rank key t.root [] w
    → Removed rank key t (finish t w)
unfolding finish
finish-Removed rank t key (missing depth) low h =
    let short : ltb max_height (suc depth) ≡ false = ground arith in
    inl (
      h.0,
      (elim (Bool-cases (is_nil t.root)) [ inl empty ↦ rw empty | inr full ↦ rw (full, short) ]),
    )
finish-Removed rank t key (found path k d v a b) low h =
    let done = unlink path k d v a b in
    let long = length-unlink path k d v a b in
    let short : ltb max_height done.1 ≡ false = ground arith in
    inr (
      path,
      k,
      d,
      v,
      a,
      b,
      record t { root = done.0; nodes = sub32 t.nodes 1 },
      h.2,
      sym (append-nil (entries t.root)) ∙ h.0,
      h.1,
      rw short,
      refl,
      unlink-Removal path k d v a b,
    )

-- `atree_remove` from a valid tree of fewer than 2 ^ 31 nodes, without equal keys: nothing changes
-- where the tree does not hold the key. Otherwise the count goes down by one, and the entry of the key
-- is gone if its node has no link 0, or is not the root and has no link 1; of a root without link 1
-- nothing is left; and where the node has both links, the key stays, with the object of the next
-- entry, which is gone.
pub remove_lem :
    {rank : ℕ → ℕ} (t : Atree)
    → IsValid rank 1 t
    → t.nodes < 2 ^ 31
    → (key : ℕ) → Removed rank key t (remove t key)
unfolding remove
remove_lem {rank} t valid small key =
    finish-Removed rank t key (walk t.comparison key t.root []) (height-IsSmall t valid small)
      (walk-Walked t.comparison rank valid.ranks key t.root [] valid.ordered)
