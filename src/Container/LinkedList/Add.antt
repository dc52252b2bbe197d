-- ===== src/Container/LinkedList/Add.antt =====
-- `list_addBack` and `list_addFront`: an entry is allocated, zeroed, filled by the client's callback
-- and inserted.
use firedrake.Common.{
  ℕ, ◌≡◌, ◌≢◌, refl, Bool, true, false, Option, some, none, List, [], ◌∷◌, ◌++◌, if◌then◌else◌,
}
use firedrake.Container.LinkedList.{
  Heap, LinkedList, Outcome, Added, insert_back, insert_front, fill, zeroed, add, add_back,
  add_front,
}
use firedrake.Container.LinkedList.Seg.{mem, Same, frame}
use firedrake.Container.LinkedList.Insert.{
  Represents, Gives, linked, linked-Same, Gives-mono, insert_back_lem, insert_front_lem,
}

-- What an addition of `p` gives: the filled entry is on the list, which stands for `after`; or the
-- callback refused, the entry is freed, and the list stands for `before`.
abbrev pub Adds : List ℕ → List ℕ → ℕ → Bool → Option Added → Type 0
Adds before after p filled none = ⊥
Adds before after p true (some r) =
    (r.entry ≡ some p) × (r.freed ≡ none) × Represents r.heap r.list after
Adds before after p false (some r) =
    (r.entry ≡ none) × (r.freed ≡ some p) × Represents r.heap r.list before

-- A list stands for its entries in every heap that has their links.
Represents-Same :
    (h g : Heap) (l : LinkedList) (xs : List ℕ)
    → Same h g xs
    → Represents h l xs
    → Represents g l xs
Represents-Same h g l xs same is = record {
  seg = frame h g 0 xs 0 same is.seg;
  distinct = is.distinct;
  first = is.first;
  last = is.last;
  count = is.count;
  unlocked = is.unlocked;
}

-- The two ends of `add`, over what the callback said and what the insertion gave.
finish :
    (l : LinkedList) (xs after : List ℕ) (p : ℕ) (filled : Bool) (g : Heap) (inserted : Outcome)
    → Represents g l xs
    → Gives (λ l' h'. Represents h' l' after) inserted
    → Adds xs after p filled (
        if filled
        then elim inserted [
          | none ↦ none
          | some (l', h') ↦ some (record { entry = some p; list = l'; heap = h'; freed = none })
        ]
        else some (record {
          entry = none;
          list = record l { internal_lock = false };
          heap = g;
          freed = some p;
        }))
finish l xs after p true g none is gives = gives
finish l xs after p true g (some (l', h')) is gives = (refl, refl, gives)
finish l xs after p false g inserted is gives = (
  refl,
  refl,
  record {
    seg = is.seg;
    distinct = is.distinct;
    first = is.first;
    last = is.last;
    count = is.count;
    unlocked = refl;
  },
)

add-Adds :
    (insert : LinkedList → ℕ → Heap → Outcome) (h : Heap) (l : LinkedList) (xs after : List ℕ)
    (p : ℕ)
    → ((g : Heap) → Represents g l xs → Gives (λ l' h'. Represents h' l' after) (insert l p g))
    → Represents h l xs
    → mem p xs ≡ false
    → ((g : Heap) → Same g (fill l.fill_entry p g).1 xs)
    → Adds xs after p (fill l.fill_entry p (zeroed h p)).0 (add insert l (some p) h)
unfolding add zeroed
add-Adds insert h l xs after p inserts is out keeps =
    let clean = linked h p 0 0 in
    let filled = (fill l.fill_entry p clean).1 in
    let ready =
      Represents-Same clean filled l xs (keeps clean)
        (Represents-Same h clean l xs (linked-Same h p 0 0 xs out) is) in
    finish l xs after p (fill l.fill_entry p clean).0 filled (insert l p filled) ready
      (inserts filled ready)

module _ {h : Heap} {l : LinkedList} {xs : List ℕ} (p : ℕ) (is : Represents h l xs)
    (not_null : p ≢ 0) (is_new : mem p xs ≡ false)
    (keeps : (g : Heap) → Same g (fill l.fill_entry p g).1 xs) where
  -- On a list that stands for `xs`, with a new address from the allocator and a callback that leaves
  -- the links of `xs` alone, `list_addBack` puts the new entry last if
  -- the callback fills it; if not, it frees the entry, returns `NULL` and keeps the list.
  pub add_back-Adds :
      Adds xs (xs ++ p ∷ []) p (fill l.fill_entry p (zeroed h p)).0 (add_back l (some p) h)
  unfolding add_back
  add_back-Adds =
      add-Adds insert_back h l xs (xs ++ p ∷ []) p
        (λ g is'.
          Gives-mono (insert_back l p g) (insert_back_lem p is' not_null is_new) (λ l' h' r. r.0))
        is is_new keeps

  -- On a list that stands for `xs`, with a new address from the allocator and a callback that leaves
  -- the links of `xs` alone, `list_addFront` puts the new entry first if
  -- the callback fills it; if not, it frees the entry, returns `NULL` and keeps the list.
  add_front-Adds : Adds xs (p ∷ xs) p (fill l.fill_entry p (zeroed h p)).0 (add_front l (some p) h)
  unfolding add_front
  add_front-Adds =
      add-Adds insert_front h l xs (p ∷ xs) p
        (λ g is'.
          Gives-mono (insert_front l p g) (insert_front_lem p is' not_null is_new) (λ l' h' r. r.0))
        is is_new keeps
