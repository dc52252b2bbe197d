-- ===== src/Container/Atree/Tests.antt =====
-- The theorems on trees at concrete trees.
use Prim.Native.Nat.{compare}
use firedrake.Common.{
  ℕ, ◌≡◌, refl, true, false, [], ◌∷◌, Option, some, none, arith, ◌==◌, if◌then◌else◌, inl,
}
use firedrake.Container.Atree.{
  nil, node, Atree, insert, find, remove, destroy, level, link1, descend, climb, plug, skew, split,
  create_node, walk, finish, unlink, heir, remove_double, climb_back, rebalance, find_from,
}
use firedrake.Container.Atree.Entries.{entries, destroy-entries}
use firedrake.Container.Atree.Order.{AllApart, insert_entry}
use firedrake.Container.Atree.Table.{IsValid, insert_lem, find_lem, find-insert}
use firedrake.Container.Atree.Remove.{Removed, remove_lem}

-- the keys themselves, as the kernel's own test of the trees compares them
abbrev rank : ℕ → ℕ
rank k = k

abbrev tree : Atree
tree = record {
  root = node 20 200 2 (node 10 100 1 nil nil) (node 30 300 1 nil (node 40 400 1 nil nil));
  comparison = λ a b. compare (rank a) (rank b);
  nodes = 4;
}

tree-IsValid : IsValid rank 1 tree
tree-IsValid = record {
  ranks = λ a b. refl;
  balanced = omega arith;
  ordered = omega arith;
  counted = refl;
}

apart : AllApart rank 1 (rank 50) (entries tree.root)
apart = (inl (omega arith), (inl (omega arith), (inl (omega arith), (inl (omega arith), tt))))

insert_lem_example :
    ((t' : Atree) × (insert true tree 500 50 ≡ some t')
      × IsValid rank 1 t'
      × (entries t'.root ≡ insert_entry rank (50, 500) (entries tree.root)))
    × (insert false tree 500 50 ≡ some tree)
insert_lem_example = insert_lem tree tree-IsValid (omega arith) 500 50 apart

find_lem_example : find tree 30 ≡ 300
find_lem_example = find_lem tree tree-IsValid 30

find-insert_example :
    (t' : Atree) × (insert true tree 500 50 ≡ some t')
    × ((other : ℕ) → find t' other ≡ (if 50 == other then 500 else find tree other))
find-insert_example = find-insert tree tree-IsValid (omega arith) 500 50 apart

remove_lem_example : Removed rank 20 tree (remove tree 20)
remove_lem_example = remove_lem tree tree-IsValid (omega arith) 20

destroy-entries_example : destroy tree ≡ (10, 100) ∷ (20, 200) ∷ (30, 300) ∷ (40, 400) ∷ []
destroy-entries_example = destroy-entries tree

-- what a call that leaves a tree says of it
abbrev of_tree : (Atree → ℕ) → Option Atree → ℕ
of_tree f none = 0
of_tree f (some t) = f t

-- The insertion of 50 splits the node 30, and 40 goes up.
insert_splits : of_tree (λ t. level (link1 t.root)) (insert true tree 500 50) ≡ 2
unfolding insert descend climb plug skew split create_node
insert_splits = refl

-- The removal of 20, which has both links, leaves the key 20 with the object of the key 30.
remove_keeps_key : of_tree (λ t. find t 20) (remove tree 20) ≡ 300
unfolding remove walk finish unlink heir remove_double climb_back plug rebalance skew split find
    find_from
remove_keeps_key = refl
