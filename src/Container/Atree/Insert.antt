-- ===== src/Container/Atree/Insert.antt =====
-- `atree_insert` and `atree_find` on the entries of a tree in order.
use Prim.Native.Nat.{Ordering}
use firedrake.Common.{
  ℕ, suc, ◌+◌, ◌-◌, ◌≤◌, ◌<◌, ◌≡◌, refl, sym, ap, ◌∙◌, true, false, List, ◌∷◌, ◌++◌, arith, dec_lt,
  length,
}
use firedrake.Container.Atree.{
  Node, nil, node, Frame, frame, Comparison, skew, split, plug, climb, descend, create_node,
  find_from,
}
use firedrake.Container.Atree.Entries.{Entry, entries, entries-skew, entries-split}
use firedrake.Container.Atree.Balance.{IsBalanced, Grown, Grown-left, Grown-right, height}
use firedrake.Container.Atree.Order.{
  Ranks, InOrder, insert_entry, find_entry, insert_entry-append_high, insert_entry-append_low,
  InOrder-append, AllBelow-imp, AllAbove-imp, find_entry-append_low, find_entry-append_high,
}

-- the tree that the loops of `atree_insert` build from `new` at the place of the key in a tree
pub inserted : Comparison → ℕ → Node → Node → Node
inserted cmp key new nil = new
inserted cmp key new (node k d v a b) = elim (cmp k key) [
  | Ordering.lt ↦ split (skew (node k d v a (inserted cmp key new b)))
  | Ordering.eq ↦ split (skew (node k d v (inserted cmp key new a) b))
  | Ordering.gt ↦ split (skew (node k d v (inserted cmp key new a) b))
]

pub climb-descend :
    (cmp : Comparison) (key : ℕ) (new n : Node) (path : List Frame)
    → climb (descend cmp key n path) new ≡ climb path (inserted cmp key new n)
unfolding climb descend inserted plug
climb-descend cmp key new nil path = refl
climb-descend cmp key new (node k d v a b) path =
    elim (cmp k key)
      as (λ o.
        climb
          (elim o [
            | Ordering.lt ↦ descend cmp key b (frame k d v a true ∷ path)
            | Ordering.eq ↦ descend cmp key a (frame k d v b false ∷ path)
            | Ordering.gt ↦ descend cmp key a (frame k d v b false ∷ path)
          ])
          new
        ≡ climb path (elim o [
          | Ordering.lt ↦ split (skew (node k d v a (inserted cmp key new b)))
          | Ordering.eq ↦ split (skew (node k d v (inserted cmp key new a) b))
          | Ordering.gt ↦ split (skew (node k d v (inserted cmp key new a) b))
        ])) [
          | Ordering.lt ↦ climb-descend cmp key new b (frame k d v a true ∷ path)
          | Ordering.eq ↦ climb-descend cmp key new a (frame k d v b false ∷ path)
          | Ordering.gt ↦ climb-descend cmp key new a (frame k d v b false ∷ path)
        ]

pub length-descend :
    (cmp : Comparison) (key : ℕ) (n : Node) (path : List Frame)
    → length (descend cmp key n path) ≤ length path + height n
unfolding descend
length-descend cmp key nil path = omega arith
length-descend cmp key (node k d v a b) path = ground (
  arith,
  length-descend cmp key b (frame k d v a true ∷ path),
  length-descend cmp key a (frame k d v b false ∷ path),
)

pub Grown-inserted :
    (cmp : Comparison) (object key : ℕ) (n : Node)
    → IsBalanced n
    → Grown n (inserted cmp key (create_node object key) n)
unfolding inserted create_node
Grown-inserted cmp object key nil h = ground arith
Grown-inserted cmp object key (node k d v a b) h =
    let new = create_node object key in
    let left =
      Grown-left k d v a (inserted cmp key new a) b h (Grown-inserted cmp object key a h.0) in
    let right =
      Grown-right k d v a b (inserted cmp key new b) h (Grown-inserted cmp object key b h.1) in
    elim (cmp k key)
      as (λ o. Grown (node k d v a b) (elim o [
        | Ordering.lt ↦ split (skew (node k d v a (inserted cmp key new b)))
        | Ordering.eq ↦ split (skew (node k d v (inserted cmp key new a) b))
        | Ordering.gt ↦ split (skew (node k d v (inserted cmp key new a) b))
      ])) [ Ordering.lt ↦ right | Ordering.eq ↦ left | Ordering.gt ↦ left ]

entries-turned : (n : Node) → entries (split (skew n)) ≡ entries n
entries-turned n = entries-split (skew n) ∙ entries-skew n

module _ (cmp : Comparison) (rank : ℕ → ℕ) (ranks : Ranks cmp rank) where
  pub cmp_lt : (a b : ℕ) → rank a < rank b → cmp a b ≡ Ordering.lt
  cmp_lt a b h = ground (arith, ranks a b)

  pub cmp_gt : (a b : ℕ) → rank b < rank a → cmp a b ≡ Ordering.gt
  cmp_gt a b h = ground (arith, ranks a b)

  pub cmp_eq : (a b : ℕ) → rank a ≡ rank b → cmp a b ≡ Ordering.eq
  cmp_eq a b h = ground (arith, ranks a b)

  pub entries-inserted :
      (gap object key : ℕ) (n : Node)
      → InOrder rank gap (entries n)
      → entries (inserted cmp key (create_node object key) n)
        ≡ insert_entry rank (key, object) (entries n)
  unfolding inserted create_node
  entries-inserted gap object key nil h = refl
  entries-inserted gap object key (node k d v a b) h =
      let new = create_node object key in
      let e : Entry = (key, object) in
      let parts = InOrder-append rank gap (entries a) (k, d) (entries b) h in
      let left = λ (high : rank key ≤ rank k).
        entries-turned (node k d v (inserted cmp key new a) b)
        ∙ ap (λ (es : List Entry). es ++ (k, d) ∷ entries b)
            (entries-inserted gap object key a parts.0)
        ∙ sym (insert_entry-append_high rank e (entries a) (k, d) (entries b) high) in
      let right = λ (low : rank k < rank key).
        let below =
          AllBelow-imp rank (suc (rank k) - gap) (rank key) (entries a) (omega arith) parts.1 in
        entries-turned (node k d v a (inserted cmp key new b))
        ∙ ap (λ (es : List Entry). entries a ++ (k, d) ∷ es)
            (entries-inserted gap object key b parts.3)
        ∙ sym (insert_entry-append_low rank e (entries a) (k, d) (entries b) below low) in
      elim (dec_lt (rank k) (rank key)) [
        | yes low ↦ rw (cmp_lt k key low, inserted) (right low)
        | no high ↦ elim (dec_lt (rank key) (rank k)) [
          | yes above ↦ rw (cmp_gt k key above, inserted) (left (omega arith))
          | no same ↦ rw (cmp_eq k key (omega arith), inserted) (left (omega arith))
        ]
      ]

  pub find_from-entries :
      (key : ℕ) (n : Node)
      → InOrder rank 1 (entries n)
      → find_from cmp n key ≡ find_entry rank key (entries n)
  unfolding find_from
  find_from-entries key nil h = refl
  find_from-entries key (node k d v a b) h =
      let parts = InOrder-append rank 1 (entries a) (k, d) (entries b) h in
      let rest : List Entry = (k, d) ∷ entries b in
      elim (dec_lt (rank k) (rank key)) [
        | yes low ↦
            let below =
              AllBelow-imp rank (suc (rank k) - 1) (rank key) (entries a) (omega arith) parts.1 in
            rw (cmp_lt k key low, find_from, find_entry-append_low rank key (entries a) rest below)
              (ground (arith, find_from-entries key b parts.3))
        | no high ↦ elim (dec_lt (rank key) (rank k)) [
          | yes above ↦
              rw (cmp_gt k key above, find_from)
                (find_from-entries key a parts.0
                  ∙ sym (
                      find_entry-append_high rank (rank k) key (entries a) rest
                        (
                          omega arith,
                          AllAbove-imp rank (rank k + 1) (rank k) (entries b) (omega arith) parts.2,
                        )
                        above))
          | no same ↦
              let below =
                AllBelow-imp rank (suc (rank k) - 1) (rank key) (entries a) (omega arith) parts.1 in
              rw
                (
                  cmp_eq k key (omega arith),
                  find_from,
                  find_entry-append_low rank key (entries a) rest below,
                )
                (ground arith)
        ]
      ]
