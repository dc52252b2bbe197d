-- ===== src/Container/Atree/Table.antt =====
-- A tree as a table: `atree_insert` and `atree_find` against the ordered list of entries.
use firedrake.Common.{
  ℕ, ◌^◌, ◌≤◌, ◌<◌, ◌≡◌, refl, sym, ap, ◌∙◌, true, false, [], some, arith, ltb, ◌==◌, if◌then◌else◌,
  length, add32,
}
use firedrake.Container.Atree.{Atree, climb, descend, create_node, insert, find, max_height}
use firedrake.Container.Atree.Entries.{entries, size-entries}
use firedrake.Container.Atree.Balance.{IsBalanced, height, height-le}
use firedrake.Container.Atree.Order.{
  Ranks, InOrder, AllApart, insert_entry, find_entry, length-insert_entry, InOrder-insert_entry,
  find_entry-insert_entry,
}
use firedrake.Container.Atree.Insert.{
  inserted, climb-descend, length-descend, Grown-inserted, entries-inserted, find_from-entries,
}

-- A sound tree: it is balanced, its entries are in order, with a gap of `gap` between the ranks of the
-- keys, and the count is theirs.
pub record IsValid (rank : ℕ → ℕ) (gap : ℕ) (t : Atree) : Type 0 where
  pub ranks : Ranks t.comparison rank
  pub balanced : IsBalanced t.root
  pub ordered : InOrder rank gap (entries t.root)
  pub counted : t.nodes ≡ length (entries t.root)

module _ {rank : ℕ → ℕ} {gap : ℕ} (t : Atree) (valid : IsValid rank gap t)
    (small : t.nodes < 2 ^ 31) where
  -- No path is longer than the array has room for.
  pub height-IsSmall : height t.root ≤ 62
  height-IsSmall =
      height-le t.root valid.balanced (omega (arith, valid.counted, size-entries t.root))

  path-IsShort : (key : ℕ) → ltb max_height (length (descend t.comparison key t.root [])) ≡ false
  path-IsShort key =
      let short = length-descend t.comparison key t.root [] in
      let low = height-IsSmall in ground arith

  -- `atree_insert` into a valid tree of fewer than 2 ^ 31 nodes, by a key that is `gap` away from the
  -- others (any key, where the gap is 0): with memory, the tree is valid, and its entries are the old
  -- ones with the new one put before the first whose key ranks no lower; without, nothing changes.
  pub insert_lem :
      (object key : ℕ)
      → AllApart rank gap (rank key) (entries t.root)
      → ((t' : Atree) × (insert true t object key ≡ some t')
          × IsValid rank gap t'
          × (entries t'.root ≡ insert_entry rank (key, object) (entries t.root)))
        × (insert false t object key ≡ some t)
  unfolding insert climb
  insert_lem object key apart =
      let new = inserted t.comparison key (create_node object key) t.root in
      let root = climb (descend t.comparison key t.root []) (create_node object key) in
      let same : root ≡ new = climb-descend t.comparison key (create_node object key) t.root [] in
      let es = entries-inserted t.comparison rank valid.ranks gap object key t.root valid.ordered in
      let t' : Atree = record t { root = new; nodes = add32 t.nodes 1 } in
      let long = ap length es ∙ length-insert_entry rank (key, object) (entries t.root) in
      rw (path-IsShort key) (
        (
          (
            t',
            rw same,
            record {
              ranks = valid.ranks;
              balanced = (Grown-inserted t.comparison object key t.root valid.balanced).0;
              ordered = rw es (
                  InOrder-insert_entry rank gap (key, object) (entries t.root) valid.ordered apart);
              counted = omega (arith, long, valid.counted);
            },
            es,
          ),
          refl,
        ))

-- `atree_find` in a valid tree without equal keys returns the object of the key, or `NULL` if the tree
-- does not hold the key.
pub find_lem :
    {rank : ℕ → ℕ} (t : Atree)
    → IsValid rank 1 t
    → (key : ℕ) → find t key ≡ find_entry rank key (entries t.root)
unfolding find
find_lem {rank} t valid key =
    find_from-entries t.comparison rank valid.ranks key t.root valid.ordered

-- After `atree_insert` of a new key into a valid tree of fewer than 2 ^ 31 nodes without equal keys,
-- `atree_find` returns the new object for the key, and for every other what it returned before.
pub find-insert :
    {rank : ℕ → ℕ} (t : Atree)
    → IsValid rank 1 t
    → t.nodes < 2 ^ 31
    → (object key : ℕ) → AllApart rank 1 (rank key) (entries t.root)
    → (t' : Atree) × (insert true t object key ≡ some t')
      × ((other : ℕ) → find t' other ≡ (if rank key == rank other then object else find t other))
find-insert {rank} t valid small object key apart =
    let (t', done, valid', es) = (insert_lem t valid small object key apart).0 in
    (
      t',
      done,
      λ other.
          find_lem t' valid' other
          ∙ ap (find_entry rank other) es
          ∙ find_entry-insert_entry rank (key, object) other (entries t.root) valid.ordered apart
          ∙ ap (λ (d : ℕ). if rank key == rank other then object else d)
              (sym (find_lem t valid other)),
    )
