-- ===== src/Container/Atree/Order.antt =====
-- Lists of entries in the order of their keys: the tables that the search trees stand for.
use Prim.Native.Nat.{compare}
use firedrake.Common.{
  ℕ, suc, ◌+◌, ◌-◌, ◌≤◌, ◌<◌, ◌≡◌, refl, List, [], ◌∷◌, ◌⊎◌, ◌++◌, arith, ltb, ◌==◌, if◌then◌else◌,
  inl, inr, length, Bool-cases,
}
use firedrake.Container.Atree.{Comparison}
use firedrake.Container.Atree.Entries.{Entry}

-- The comparison orders the keys by a rank.
abbrev pub Ranks : Comparison → (ℕ → ℕ) → Type 0
Ranks cmp rank = (a b : ℕ) → cmp a b ≡ compare (rank a) (rank b)

module _ (rank : ℕ → ℕ) where
  -- All keys rank below `bound`, or `bound` and above.
  abbrev pub AllBelow : ℕ → List Entry → Type 0
  AllBelow bound [] = Unit {0}
  AllBelow bound ((k, d) ∷ es) = (rank k < bound) × AllBelow bound es

  abbrev pub AllAbove : ℕ → List Entry → Type 0
  AllAbove bound [] = Unit {0}
  AllAbove bound ((k, d) ∷ es) = (bound ≤ rank k) × AllAbove bound es

  -- Every key ranks at least `gap` above those before it: with gap 1 no two keys are equal.
  abbrev pub InOrder : ℕ → List Entry → Type 0
  InOrder gap [] = Unit {0}
  InOrder gap ((k, d) ∷ es) = AllAbove (rank k + gap) es × InOrder gap es

  -- All keys are `gap` away from the rank `r`.
  abbrev pub AllApart : ℕ → ℕ → List Entry → Type 0
  AllApart gap r [] = Unit {0}
  AllApart gap r ((k, d) ∷ es) = ((rank k + gap ≤ r) ⊎ (r + gap ≤ rank k)) × AllApart gap r es

  -- An ordered list with an entry put before the first of those that do not rank below it.
  abbrev pub insert_entry : Entry → List Entry → List Entry
  insert_entry e [] = e ∷ []
  insert_entry e (x ∷ xs) = if ltb (rank x.0) (rank e.0) then x ∷ insert_entry e xs else e ∷ x ∷ xs

  -- the data of the first entry whose key has the key's rank
  abbrev pub find_entry : ℕ → List Entry → ℕ
  find_entry key [] = 0
  find_entry key ((k, d) ∷ es) = if rank k == rank key then d else find_entry key es

  pub insert_entry-append_high :
      (e : Entry) (xs : List Entry) (x : Entry) (ys : List Entry)
      → rank e.0 ≤ rank x.0
      → insert_entry e (xs ++ x ∷ ys) ≡ insert_entry e xs ++ x ∷ ys
  insert_entry-append_high e [] x ys h = ground arith
  insert_entry-append_high e (z ∷ xs) x ys h = ground (arith, insert_entry-append_high e xs x ys h)

  pub insert_entry-append_low :
      (e : Entry) (xs : List Entry) (x : Entry) (ys : List Entry)
      → AllBelow (rank e.0) xs
      → rank x.0 < rank e.0
      → insert_entry e (xs ++ x ∷ ys) ≡ xs ++ x ∷ insert_entry e ys
  insert_entry-append_low e [] x ys low h = ground arith
  insert_entry-append_low e (z ∷ xs) x ys low h =
      ground (arith, insert_entry-append_low e xs x ys low.1 h)

  pub length-insert_entry :
      (e : Entry) (xs : List Entry) → length (insert_entry e xs) ≡ suc (length xs)
  length-insert_entry e [] = refl
  length-insert_entry e (x ∷ xs) = ground (arith, length-insert_entry e xs)

  AllAbove-append :
      (bound : ℕ) (xs : List Entry) (x : Entry) (ys : List Entry)
      → AllAbove bound (xs ++ x ∷ ys)
      → AllAbove bound xs × (bound ≤ rank x.0)
  AllAbove-append bound [] x ys h = (tt, h.0)
  AllAbove-append bound (z ∷ xs) x ys h =
      let rest = AllAbove-append bound xs x ys h.1 in ((h.0, rest.0), rest.1)

  -- what the order of the whole says of its parts
  pub InOrder-append :
      (gap : ℕ) (xs : List Entry) (x : Entry) (ys : List Entry)
      → InOrder gap (xs ++ x ∷ ys)
      → InOrder gap xs
        × AllBelow (suc (rank x.0) - gap) xs
        × AllAbove (rank x.0 + gap) ys
        × InOrder gap ys
  InOrder-append gap [] x ys h = (tt, tt, h.0, h.1)
  InOrder-append gap (z ∷ xs) x ys h =
      let rest = InOrder-append gap xs x ys h.1 in
      let above = AllAbove-append (rank z.0 + gap) xs x ys h.0 in
      ((above.0, rest.0), (omega arith, rest.1), rest.2, rest.3)

  pub AllBelow-imp : (a b : ℕ) (xs : List Entry) → a ≤ b → AllBelow a xs → AllBelow b xs
  AllBelow-imp a b [] le h = tt
  AllBelow-imp a b (x ∷ xs) le h = (omega arith, AllBelow-imp a b xs le h.1)

  pub AllAbove-imp : (a b : ℕ) (xs : List Entry) → b ≤ a → AllAbove a xs → AllAbove b xs
  AllAbove-imp a b [] le h = tt
  AllAbove-imp a b (x ∷ xs) le h = (omega arith, AllAbove-imp a b xs le h.1)

  AllAbove-insert_entry :
      (bound : ℕ) (e : Entry) (xs : List Entry)
      → bound ≤ rank e.0
      → AllAbove bound xs
      → AllAbove bound (insert_entry e xs)
  AllAbove-insert_entry bound e [] le h = (le, tt)
  AllAbove-insert_entry bound e (x ∷ xs) le h = elim (Bool-cases (ltb (rank x.0) (rank e.0))) [
    | inl low ↦ rw low ((h.0, AllAbove-insert_entry bound e xs le h.1))
    | inr high ↦ rw high ((le, h))
  ]

  -- An entry that is far enough from the others is put in order.
  pub InOrder-insert_entry :
      (gap : ℕ) (e : Entry) (xs : List Entry)
      → InOrder gap xs
      → AllApart gap (rank e.0) xs
      → InOrder gap (insert_entry e xs)
  InOrder-insert_entry gap e [] h apart = (tt, tt)
  InOrder-insert_entry gap e (x ∷ xs) h apart = elim (Bool-cases (ltb (rank x.0) (rank e.0))) [
    | inl low ↦
        let far : rank x.0 + gap ≤ rank e.0 = ground arith in
        rw low (
          (
            AllAbove-insert_entry (rank x.0 + gap) e xs far h.0,
            InOrder-insert_entry gap e xs h.1 apart.1,
          ))
    | inr high ↦
        let far : rank e.0 + gap ≤ rank x.0 = ground arith in
        let le : rank e.0 ≤ rank x.0 = ground arith in
        let above = AllAbove-imp (rank x.0 + gap) (rank e.0 + gap) xs (omega arith) h.0 in
        rw high (((far, above), h))
  ]

  -- Among keys that are all different, only the key put in finds another object.
  pub find_entry-insert_entry :
      (e : Entry) (key : ℕ) (xs : List Entry)
      → InOrder 1 xs
      → AllApart 1 (rank e.0) xs
      → find_entry key (insert_entry e xs)
        ≡ (if rank e.0 == rank key then e.1 else find_entry key xs)
  find_entry-insert_entry e key [] h apart = refl
  find_entry-insert_entry e key (x ∷ xs) h apart =
      ground (arith, find_entry-insert_entry e key xs h.1 apart.1)

  find_entry-AllAbove :
      (bound key : ℕ) (xs : List Entry)
      → AllAbove bound xs
      → rank key < bound
      → find_entry key xs ≡ 0
  find_entry-AllAbove bound key [] h lt = refl
  find_entry-AllAbove bound key (x ∷ xs) h lt =
      ground (arith, find_entry-AllAbove bound key xs h.1 lt)

  -- what a search may leave out
  pub find_entry-append_low :
      (key : ℕ) (xs ys : List Entry)
      → AllBelow (rank key) xs
      → find_entry key (xs ++ ys) ≡ find_entry key ys
  find_entry-append_low key [] ys h = refl
  find_entry-append_low key (x ∷ xs) ys h = ground (arith, find_entry-append_low key xs ys h.1)

  pub find_entry-append_high :
      (bound key : ℕ) (xs ys : List Entry)
      → AllAbove bound ys
      → rank key < bound
      → find_entry key (xs ++ ys) ≡ find_entry key xs
  find_entry-append_high bound key [] ys h lt = find_entry-AllAbove bound key ys h lt
  find_entry-append_high bound key (x ∷ xs) ys h lt =
      ground (arith, find_entry-append_high bound key xs ys h lt)
