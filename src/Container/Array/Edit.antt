-- ===== src/Container/Array/Edit.antt =====
-- What the operations on an array do to the objects that it holds.
use firedrake.Common.{
  ℕ, suc, ◌+◌, ◌-◌, ◌*◌, ◌^◌, ◌<◌, ◌≤◌, ◌≡◌, refl, sym, ap, ◌∙◌, ◌⊎◌, inl, inr, true, false, Option,
  none, some, List, [], ◌∷◌, ◌++◌, arith, ltb, leb, ◌==◌, if◌then◌else◌, length, set, take, drop,
  length-set, add32, sub32, mul32, Bool-cases, Option-cases,
}
use mathlib.Core.Path.{subst}
use firedrake.Container.Array.Splice.{insert_words, remove_words}
use firedrake.Container.Array.{
  Array, Allocator, no_step, copy_words, next_space, resize, put_last, add_object, put_at,
  insert_object, less_space, collapse, take_out, remove_object_at_index, shift_up, shift_down,
}
use firedrake.Container.Array.Words.{
  length-copy_words, take-copy_words, take-set_last, length-shift_up, length-shift_down,
}

-- what the array holds
abbrev pub contents : Array → List ℕ
contents a = take a.count a.data_words

-- The memory has `space` words, one of which at least is free.
abbrev pub IsValid : Array → Type 0
IsValid a = (length a.data_words ≡ a.space) × (a.count < a.space)

-- The array can still grow: the sizes in bytes fit, and it grows by 1 at least.
abbrev pub IsSmall : Array → Type 0
IsSmall a =
    (a.space < 2 ^ 29)
    × ((a.allocation_step ≡ no_step) ⊎ ((0 < a.allocation_step) × (a.allocation_step < 2 ^ 29)))

-- what is relied on of `halloc`: the memory it gives has the bytes asked for
abbrev pub Honest : Allocator → Type 0
Honest halloc = (bytes : ℕ) (ws : List ℕ) → halloc bytes ≡ some ws → 4 * length ws ≡ bytes

-- The outcome of an operation that may panic for lack of memory: it does so only if one place at most is
-- free, so that the array has to grow, and the allocator does not have the larger memory.
abbrev pub Edits : Allocator → Array → List ℕ → Option Array → Type 0
Edits halloc a after none = (a.space ≤ a.count + 1) × (halloc (mul32 (next_space a) 4) ≡ none)
Edits halloc a after (some b) = IsValid b × (contents b ≡ after)

next_space-gt :
    (a : Array) → IsValid a → IsSmall a → a.space < next_space a × (next_space a < 2 ^ 30)
unfolding next_space
next_space-gt a v (small, inl e) = rw e (omega arith, omega arith)
next_space-gt a v (small, inr (pos, lt)) =
    let test : (a.allocation_step == no_step) ≡ false = ground arith in
    rw test (omega arith, omega arith)

-- Growing, if it does not panic, makes room for one more object and keeps the rest.
record Room (a b : Array) : Type 0 where
  full : length b.data_words ≡ b.space
  room : a.count + 1 < b.space
  count : b.count ≡ a.count
  keeps : take a.count b.data_words ≡ take a.count a.data_words

resize-Room :
    (halloc : Allocator) (a : Array)
    → Honest halloc
    → IsValid a
    → IsSmall a
    → ((resize halloc a ≡ none)
        × (a.space ≤ a.count + 1)
        × (halloc (mul32 (next_space a) 4) ≡ none))
      ⊎ ((b : Array) × (resize halloc a ≡ some b) × Room a b)
unfolding resize
resize-Room halloc a honest (len, lt) s =
    let (more, fits) = next_space-gt a (len, lt) s in
    elim (Bool-cases (leb (sub32 a.space 1) a.count)) [
      | inr enough ↦ inr (
        a,
        rw enough refl,
        record { full = len; room = ground arith; count = refl; keeps = refl },
      )
      | inl full ↦ elim (Option-cases (halloc (mul32 (next_space a) 4))) [
        | inl miss ↦ inl (simp (full, miss, resize) refl, ground arith, miss)
        | inr (ws, got) ↦
            let bytes = honest (mul32 (next_space a) 4) ws got in
            let long : length ws ≡ next_space a = omega arith in
            inr (
              record a { space = next_space a; data_words = copy_words ws a.data_words a.count },
              simp (full, got, resize) refl,
              record {
                full = length-copy_words ws a.data_words a.count ∙ long;
                room = omega arith;
                count = refl;
                keeps = take-copy_words ws a.data_words a.count (omega arith) (omega arith);
              },
            )
      ]
    ]

put_last-contents :
    (a b : Array) (object : ℕ)
    → a.count < 2 ^ 30
    → Room a b
    → IsValid (put_last object b) × (contents (put_last object b) ≡ contents a ++ object ∷ [])
unfolding put_last
put_last-contents a b object small r =
    let room = r.room in
    let full = r.full in
    let count = r.count in
    let next : add32 b.count 1 ≡ suc a.count = omega arith in
    let held : take (suc a.count) (set b.data_words a.count object)
        ≡ take a.count a.data_words ++ object ∷ [] =
      take-set_last b.data_words a.count object (omega arith)
      ∙ ap (λ xs. xs ++ object ∷ []) r.keeps in
    ((length-set b.data_words b.count object ∙ full, rw next (omega arith)), rw (next, count) held)

-- An operation that grows the array and then edits it.
edits :
    (halloc : Allocator) (a : Array) (after : List ℕ) (edit : Array → Array)
    → Honest halloc
    → IsValid a
    → IsSmall a
    → ((b : Array) → Room a b → IsValid (edit b) × (contents (edit b) ≡ after))
    → Edits halloc a after (elim (resize halloc a) [ none ↦ none | some b ↦ some (edit b) ])
edits halloc a after edit honest v s right =
    let step : Option Array → Option Array = λ o. elim o [ none ↦ none | some b ↦ some (edit b) ] in
    elim (resize-Room halloc a honest v s) [
      | inl (stops, full, miss) ↦
          subst (λ o. Edits halloc a after (step o)) (sym stops) (full, miss)
      | inr (b, e, r) ↦ subst (λ o. Edits halloc a after (step o)) (sym e) (right b r)
    ]

-- `array_addObject` on a valid array that can grow, with an allocator that gives the bytes asked for:
-- it panics only where one place at most is free and the allocator does not have the memory to grow into,
-- and otherwise leaves a valid array that holds the objects of the old one followed by the new one.
add_object-Edits :
    (halloc : Allocator) (a : Array) (object : ℕ)
    → Honest halloc
    → IsValid a
    → IsSmall a
    → Edits halloc a (contents a ++ object ∷ []) (add_object halloc a object)
unfolding add_object
add_object-Edits halloc a object honest v s =
    edits halloc a (contents a ++ object ∷ []) (put_last object) honest v s
      (λ b r. put_last-contents a b object (omega arith) r)

put_at-contents :
    (a b : Array) (object index : ℕ)
    → index < a.count
    → a.count < 2 ^ 30
    → Room a b
    → IsValid (put_at object index b)
      × (contents (put_at object index b)
          ≡ take index (contents a) ++ object ∷ drop index (contents a))
unfolding put_at
put_at-contents a b object index lt small r =
    let room = r.room in
    let full = r.full in
    let count = r.count in
    let next : add32 b.count 1 ≡ suc a.count = omega arith in
    let moved = shift_up b.data_words index (b.count - index) in
    let held = insert_words b.data_words object index a.count lt (omega arith) in
    (
      (
        length-set moved index object ∙ length-shift_up b.data_words index (b.count - index) ∙ full,
        rw next (omega arith),
      ),
      rw (next, count) (held ∙ ap (λ xs. take index xs ++ object ∷ drop index xs) r.keeps),
    )

-- `array_insertObject` at an index below the count, on a valid array that can grow, with an allocator
-- that gives the bytes asked for: it panics only where one place at most is free and the
-- allocator does not have the memory to grow into, and otherwise leaves a valid array with the object
-- before the one that was at the index.
pub insert_object-Edits :
    (halloc : Allocator) (a : Array) (object index : ℕ)
    → Honest halloc
    → IsValid a
    → IsSmall a
    → index < a.count
    → Edits halloc a
        (take index (contents a) ++ object ∷ drop index (contents a))
        (insert_object halloc a object index)
unfolding insert_object
insert_object-Edits halloc a object index honest v s lt =
    let test : ltb index a.count ≡ true = ground arith in
    rw (test, insert_object)
      (edits halloc a (take index (contents a) ++ object ∷ drop index (contents a))
        (put_at object index) honest v s
        (λ b r. put_at-contents a b object index lt (omega arith) r))

less_space-lt : (a : Array) → IsValid a → a.space < 2 ^ 29 → less_space a < 2 ^ 30
unfolding less_space
less_space-lt a v lt = ground arith

-- Shrinking keeps the array valid and what it holds.
collapse-contents :
    (halloc : Allocator) (a : Array)
    → Honest halloc
    → IsValid a
    → a.space < 2 ^ 29
    → IsValid (collapse halloc a) × (contents (collapse halloc a) ≡ contents a)
unfolding collapse
collapse-contents halloc a honest (len, lt) small =
    let fits = less_space-lt a (len, lt) small in
    elim (Bool-cases (ltb a.count (less_space a))) [
      | inr keep ↦ rw keep ((len, lt), refl)
      | inl less ↦ elim (Option-cases (halloc (mul32 (less_space a) 4))) [
        | inl miss ↦ rw (less, miss) ((len, lt), refl)
        | inr (ws, got) ↦
            let bytes = honest (mul32 (less_space a) 4) ws got in
            let below : a.count < less_space a = ground arith in
            let long : length ws ≡ less_space a = omega arith in
            rw (less, got)
              (
                (length-copy_words ws a.data_words a.count ∙ long, below),
                take-copy_words ws a.data_words a.count (omega arith) (omega arith),
              )
      ]
    ]

take_out-contents :
    (a : Array) (index : ℕ)
    → IsValid a
    → a.space < 2 ^ 29
    → index < a.count
    → IsValid (take_out index a)
      × (contents (take_out index a) ≡ take index (contents a) ++ drop (suc index) (contents a))
unfolding take_out
take_out-contents a index (len, lt) small h =
    let less : sub32 a.count 1 ≡ a.count - 1 = omega arith in
    let size : length (
          if ltb index (a.count - 1)
          then shift_down a.data_words index (a.count - index - 1)
          else a.data_words)
        ≡ length a.data_words =
      elim (Bool-cases (ltb index (a.count - 1))) [
        | inl e ↦ rw e (length-shift_down a.data_words index (a.count - index - 1))
        | inr e ↦ rw e refl
      ] in
    rw less ((size ∙ len, omega arith), remove_words a.data_words index a.count h (omega arith))

-- `array_removeObjectAtIndex` at an index below the count, on a valid array, with an allocator that
-- gives the bytes asked for: it returns a valid array without the object at the index, the others in
-- their order, whether or not there is memory to shrink into.
pub remove_object_at_index_lem :
    (halloc : Allocator) (a : Array) (index : ℕ)
    → Honest halloc
    → IsValid a
    → a.space < 2 ^ 29
    → index < a.count
    → (b : Array) × (remove_object_at_index halloc a index ≡ some b)
      × IsValid b
      × (contents b ≡ take index (contents a) ++ drop (suc index) (contents a))
unfolding remove_object_at_index take_out
remove_object_at_index_lem halloc a index honest v small lt =
    let test : ltb index a.count ≡ true = ground arith in
    let (valid, held) = take_out-contents a index v small lt in
    let small' : (take_out index a).space < 2 ^ 29 = small in
    let (valid', same) = collapse-contents halloc (take_out index a) honest valid small' in
    (collapse halloc (take_out index a), rw test refl, valid', same ∙ held)
