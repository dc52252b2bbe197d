-- ===== src/Container/Iterator/Drain.antt =====
-- What a callback owes to an iterator, and what the iterator's client gets then.
use firedrake.Common.{
  some, some_inj, ℕ, zero, suc, ◌+◌, ◌-◌, ◌≤◌, ◌<◌, ◌≡◌, refl, sym, ap, ◌∙◌, ◌⊎◌, inl, inr, Bool,
  true, false, List, [], ◌∷◌, ◌++◌, ◌==◌, if◌then◌else◌, arith, length, take, drop, get_or,
  Bool-cases,
}
use firedrake.Container.Iterator.{
  Iterator, Fetch, max_objects, hand_out, refilled, next_object, fresh, create,
}

module _ {D C : Type 0} (left : D → C → List ℕ) (Good : D → C → Type 0) where
  -- what is left to give, before and after the callback fetched the objects of `r`
  pub record Fetched (it : Iterator D C) (r : Iterator D C × ℕ) : Type 0 where
    pub good : Good r.0.data_of r.0.custom
    pub size : length r.0.objects ≡ max_objects
    pub number : r.1 ≤ max_objects
    pub chunk : left it.data_of it.custom ≡ take r.1 r.0.objects ++ left r.0.data_of r.0.custom
    pub last : r.1 ≡ 0 → left it.data_of it.custom ≡ []

  -- a callback that gives the objects that are left, in their order
  abbrev pub Honest : Fetch D C → Type 0
  Honest fetch =
      (it : Iterator D C)
      → Good it.data_of it.custom
      → length it.objects ≡ max_objects
      → Fetched it (fetch it max_objects)

  -- the iterator's fields fit each other
  abbrev pub IsValid : Iterator D C → Type 0
  IsValid it =
      Good it.data_of it.custom
      × (length it.objects ≡ max_objects)
      × (it.index + it.objects_left ≤ max_objects)

  -- the objects to come: those fetched, and those left
  abbrev pub pending : Iterator D C → List ℕ
  pending it = take it.objects_left (drop it.index it.objects) ++ left it.data_of it.custom

  abbrev pub Yields : Iterator D C → (Iterator D C × ℕ) → Type 0
  Yields it r =
      IsValid (r.0)
      × ((pending it ≡ r.1 ∷ pending (r.0))
          ⊎ ((pending it ≡ []) × (pending (r.0) ≡ []) × (r.1 ≡ 0)))

take-drop-suc :
    (os : List ℕ) (i k : ℕ)
    → i + suc k ≤ length os
    → take (suc k) (drop i os) ≡ get_or os i 0 ∷ take k (drop (suc i) os)
take-drop-suc [] i k h = absurd (omega arith)
take-drop-suc (o ∷ os) zero k h = refl
take-drop-suc (o ∷ os) (suc i) k h = take-drop-suc os i k (omega arith)

-- the first of some objects, and the others
take-drop_first :
    (os : List ℕ) (i n : ℕ)
    → 0 < n
    → i + n ≤ length os
    → take n (drop i os) ≡ get_or os i 0 ∷ take (n - 1) (drop (i + 1) os)
take-drop_first os i n some_left h =
    let one : n ≡ suc (n - 1) = omega arith in
    let behind : i + 1 ≡ suc i = omega arith in
    ap (λ m. take m (drop i os)) one
    ∙ take-drop-suc os i (n - 1) (omega arith)
    ∙ ap (λ j. get_or os i 0 ∷ take (n - 1) (drop j os)) (sym behind)

module _ {D C : Type 0} (left : D → C → List ℕ) (Good : D → C → Type 0) where
  pending-hand_out :
      (it : Iterator D C)
      → 0 < it.objects_left
      → it.index + it.objects_left ≤ length it.objects
      → pending left Good it ≡ (hand_out it).1 ∷ pending left Good ((hand_out it).0)
  unfolding hand_out
  pending-hand_out it some_left fits =
      ap (λ os. os ++ left it.data_of it.custom)
        (take-drop_first it.objects it.index it.objects_left some_left fits)

  hand_out-Yields :
      (it : Iterator D C)
      → 0 < it.objects_left
      → IsValid left Good it
      → Yields left Good it (hand_out it)
  unfolding hand_out
  hand_out-Yields it some_left (good, size, fits) =
      ((good, size, omega arith), inl (pending-hand_out it some_left (omega arith)))

  -- the case that nothing is left of the objects fetched before
  refilled-Yields :
      (it : Iterator D C) (r : Iterator D C × ℕ)
      → Fetched left Good it r
      → pending left Good it ≡ left it.data_of it.custom
      → Yields left Good it (if r.1 == 0 then (refilled r, 0) else hand_out (refilled r))
  unfolding refilled
  refilled-Yields it r f now = elim (Bool-cases (r.1 == 0)) [
    | inl at_end ↦
        let zero_given : r.1 ≡ 0 = ground arith in
        let nothing : left it.data_of it.custom ≡ [] = f.last zero_given in
        let after : pending left Good (refilled r) ≡ [] = sym (f.chunk) ∙ nothing in
        rw at_end ((f.good, f.size, omega (arith, f.number)), inr (now ∙ nothing, after, refl))
    | inr further ↦
        let some_given : 0 < r.1 = ground arith in
        let fits : 0 + r.1 ≤ length r.0.objects = omega (arith, f.number, f.size) in
        let valid =
          hand_out-Yields (refilled r) some_given (f.good, f.size, omega (arith, f.number)) in
        rw further (valid.0, inl (now ∙ f.chunk ∙ pending-hand_out (refilled r) some_given fits))
  ]

  -- A call of `iterator_nextObject`, whose callback is honest, gives the first object to come and
  -- leaves the others, or gives `NULL` where none is to come.
  pub next_object-Yields :
      (fetch : Fetch D C) (it : Iterator D C)
      → Honest left Good fetch
      → IsValid left Good it
      → Yields left Good it (next_object fetch it)
  unfolding next_object refilled
  next_object-Yields fetch it honest (good, size, fits) = elim (Bool-cases (it.objects_left == 0)) [
    | inl none_left ↦
        let empty : it.objects_left ≡ 0 = ground arith in
        let now : pending left Good it ≡ left it.data_of it.custom =
          ap (λ n. take n (drop it.index it.objects) ++ left it.data_of it.custom) empty in
        rw none_left (refilled-Yields it (fetch it max_objects) (honest it good size) now)
    | inr some_left ↦ rw some_left (hand_out-Yields it (ground arith) (good, size, fits))
  ]

-- the results of a number of calls
abbrev pub collect : {D C : Type 0} → Fetch D C → (calls : ℕ) → Iterator D C → List ℕ
collect fetch zero it = []
collect fetch (suc n) it = (next_object fetch it).1 ∷ collect fetch n (next_object fetch it).0

-- the first `calls` of some objects, and `NULL` behind the last
abbrev pub then_null : (calls : ℕ) → List ℕ → List ℕ
then_null zero os = []
then_null (suc n) [] = 0 ∷ then_null n []
then_null (suc n) (o ∷ os) = o ∷ then_null n os

-- The calls of an iterator whose callback is honest give the objects to come in their order, and `NULL`
-- from then on.
pub collect_lem :
    {D C : Type 0} (left : D → C → List ℕ) (Good : D → C → Type 0) (fetch : Fetch D C) (calls : ℕ)
    (it : Iterator D C)
    → Honest left Good fetch
    → IsValid left Good it
    → collect fetch calls it ≡ then_null calls (pending left Good it)
collect_lem left Good fetch zero it honest valid = refl
collect_lem left Good fetch (suc n) it honest valid =
    let (valid', yields) = next_object-Yields left Good fetch it honest valid in
    let rest = collect_lem left Good fetch n (next_object fetch it).0 honest valid' in
    elim yields [
      | inl given ↦ rw given (ap (λ os. (next_object fetch it).1 ∷ os) rest)
      | inr (nothing, after, null) ↦
          rw (nothing, null) (ap (λ os. 0 ∷ os) (rest ∙ ap (then_null n) after))
    ]

-- the iterator that is created
created :
    {D C : Type 0} (given : Bool) (objects : List ℕ) (cleared : C) (d : D) (it : Iterator D C)
    → create given objects cleared d ≡ some it
    → fresh objects cleared d ≡ it
unfolding create
created false objects cleared d it e = absurd (cc)
created true objects cleared d it e = some_inj e

-- The same for a new iterator, which has all objects to come.
pub collect-create :
    {D C : Type 0} (left : D → C → List ℕ) (Good : D → C → Type 0) (fetch : Fetch D C) (calls : ℕ)
    (given : Bool) (objects : List ℕ) (cleared : C) (d : D) (it : Iterator D C)
    → Honest left Good fetch
    → Good d cleared
    → length objects ≡ max_objects
    → create given objects cleared d ≡ some it
    → collect fetch calls it ≡ then_null calls (left d cleared)
unfolding fresh
collect-create left Good fetch calls given objects cleared d it honest good size e =
    ap (collect fetch calls) (sym (created given objects cleared d it e))
    ∙ collect_lem left Good fetch calls (fresh objects cleared d) honest (good, size, omega arith)
