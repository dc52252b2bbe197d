-- ===== src/Container/Array/Iterate.antt =====
-- `array_iteratorNextObject`, the callback of an array's iterator.
use firedrake.Common.{
  Option, some, ℕ, zero, suc, ◌+◌, ◌≤◌, ◌<◌, ◌^◌, ◌≡◌, refl, sym, ap, ◌∙◌, inl, inr, Bool, List, [],
  ◌∷◌, ◌++◌, ◌⊎◌, leb, if◌then◌else◌, arith, length, take, drop, set, get_or, length-set,
  length-take, Bool-cases, add32,
}
use mathlib.Core.List.{append_assoc}
use firedrake.Container.Array.{Array}
use firedrake.Container.Array.Edit.{contents, IsValid}
use firedrake.Container.Array.Words.{take-set_last, get-take}
use firedrake.Container.Iterator.{Iterator, Fetch, create}
use firedrake.Container.Iterator.Drain.{Honest, collect, then_null, collect-create}

-- The loop, from `i` on with `n` rounds left until `maxObjects`: the objects, and `i` behind it.
pub copy_objects : Array → (index i n : ℕ) → (objects : List ℕ) → (List ℕ × ℕ)
copy_objects a index i zero objects = (objects, i)
copy_objects a index i (suc n) objects =
    let rest =
      copy_objects a index (i + 1) n (set objects i (get_or a.data_words (add32 index i) 0)) in
    if leb a.count (add32 index i) then (objects, i) else rest

-- `array_iteratorNextObject`, with `custom[0]`
pub iterator_next : Fetch Array ℕ
iterator_next it limit =
    let copied = copy_objects it.data_of it.custom 0 limit it.objects in
    (record it { custom = add32 it.custom copied.1; objects = copied.0 }, copied.1)

-- `array_iterator`
unfoldable pub iterator : (given : Bool) → (objects : List ℕ) → Array → Option (Iterator Array ℕ)
iterator given objects a = create given objects 0 a

-- the objects from an index on
abbrev pub from : Array → (index : ℕ) → List ℕ
from a index = drop index (contents a)

-- the array's memory, and an index up to its end
abbrev pub Reached : Array → (index : ℕ) → Type 0
Reached a index = (a.count ≤ length a.data_words) × (a.count < 2 ^ 32) × (index ≤ a.count)

drop-one : (xs : List ℕ) (j : ℕ) → j < length xs → drop j xs ≡ get_or xs j 0 ∷ drop (suc j) xs
drop-one [] j h = absurd (omega arith)
drop-one (x ∷ xs) zero h = refl
drop-one (x ∷ xs) (suc j) h = drop-one xs j (omega arith)

drop-all : (xs : List ℕ) (n : ℕ) → length xs ≤ n → drop n xs ≡ []
drop-all [] zero h = refl
drop-all [] (suc n) h = refl
drop-all (x ∷ xs) zero h = absurd (omega arith)
drop-all (x ∷ xs) (suc n) h = drop-all xs n (omega arith)

from-one :
    (a : Array) (j : ℕ)
    → a.count ≤ length a.data_words
    → j < a.count
    → from a j ≡ get_or a.data_words j 0 ∷ from a (suc j)
from-one a j memory inside =
    drop-one (contents a) j (omega (arith, length-take a.count a.data_words))
    ∙ ap (λ v. v ∷ from a (suc j)) (get-take a.data_words a.count j inside)

from-count : (a : Array) (j : ℕ) → a.count ≤ j → from a j ≡ []
from-count a j at_end = drop-all (contents a) j (omega (arith, length-take a.count a.data_words))

-- one more object written
written-next :
    (a : Array) (index i : ℕ) (objects : List ℕ)
    → a.count ≤ length a.data_words
    → index + i < a.count
    → i < length objects
    → take (i + 1) (set objects i (get_or a.data_words (index + i) 0)) ++ from a (index + (i + 1))
      ≡ take i objects ++ from a (index + i)
written-next a index i objects memory inside room =
    let object = get_or a.data_words (index + i) 0 in
    let next : i + 1 ≡ suc i = omega arith in
    let next' : index + (i + 1) ≡ suc (index + i) = omega arith in
    rw (next', next)
      (ap (λ os. os ++ from a (suc (index + i))) (take-set_last objects i object room)
        ∙ append_assoc (take i objects) (object ∷ []) (from a (suc (index + i)))
        ∙ ap (λ os. take i objects ++ os) (sym (from-one a (index + i) memory inside)))

-- What the loop has to give: it goes on to `r.1`, and has written the objects up to there.
record Copied (a : Array) (index i n : ℕ) (objects : List ℕ) (r : List ℕ × ℕ) : Type 0 where
  size : length r.0 ≡ length objects
  number : r.1 ≤ i + n
  within : index + r.1 ≤ a.count
  written : take r.1 r.0 ++ from a (index + r.1) ≡ take i objects ++ from a (index + i)
  stopped : r.1 ≡ i + n ⊎ (r.1 + index ≡ a.count)

copy_objects-Copied :
    (a : Array) (index i n : ℕ) (objects : List ℕ)
    → Reached a (index + i)
    → i + n ≤ length objects
    → Copied a index i n objects (copy_objects a index i n objects)
unfolding copy_objects
copy_objects-Copied a index i zero objects (memory, bounded, reached) room = record {
  size = refl;
  number = omega arith;
  within = reached;
  written = refl;
  stopped = inl (omega arith);
}
copy_objects-Copied a index i (suc n) objects (memory, bounded, reached) room =
    let exact : add32 index i ≡ index + i = omega arith in
    let object = get_or a.data_words (index + i) 0 in
    rw exact (elim (Bool-cases (leb a.count (index + i))) [
      | inl at_end ↦ rw at_end (record {
        size = refl;
        number = omega arith;
        within = reached;
        written = refl;
        stopped = inr (ground arith);
      })
      | inr inside ↦
          let more : index + i < a.count = ground arith in
          let wider : length (set objects i object) ≡ length objects =
            length-set objects i object in
          let rest =
            copy_objects-Copied a index (i + 1) n (set objects i object)
              (memory, bounded, omega arith) (omega (arith, wider)) in
          rw inside (record {
            size = rest.size ∙ wider;
            number = omega (arith, rest.number);
            within = rest.within;
            written = rest.written ∙ written-next a index i objects memory more (omega arith);
            stopped = elim (rest.stopped) [ inl e ↦ inl (e ∙ omega arith) | inr e ↦ inr e ];
          })
    ])

iterator_next-Honest : Honest from Reached iterator_next
unfolding iterator_next
iterator_next-Honest it (memory, bounded, reached) size =
    let a = it.data_of in
    let c =
      copy_objects-Copied a it.custom 0 10 it.objects (memory, bounded, omega arith)
        (omega arith) in
    let copied = copy_objects a it.custom 0 10 it.objects in
    let exact : add32 it.custom copied.1 ≡ it.custom + copied.1 = omega (arith, c.within) in
    let start : it.custom + 0 ≡ it.custom = omega arith in
    record {
      good = (memory, bounded, omega (arith, exact, c.within));
      size = c.size ∙ size;
      number = c.number;
      chunk = rw exact (sym (c.written ∙ ap (from a) start));
      last = λ none_given. elim (c.stopped) [
        | inl full ↦ absurd (omega arith)
        | inr at_end ↦ from-count a it.custom (omega arith)
      ];
    }

-- The iterator that `array_iterator` creates for an array whose size fits its memory gives the array's
-- objects in their order, and `NULL` from then on, however many calls there are.
pub collect-contents :
    (a : Array) (given : Bool) (objects : List ℕ) (calls : ℕ) (it : Iterator Array ℕ)
    → IsValid a
    → a.count < 2 ^ 32
    → length objects ≡ 10
    → iterator given objects a ≡ some it
    → collect iterator_next calls it ≡ then_null calls (contents a)
unfolding iterator
collect-contents a given objects calls it (memory, free) bounded size e =
    collect-create from Reached iterator_next calls given objects 0 a it iterator_next-Honest
      (omega arith, bounded, omega arith) size e
