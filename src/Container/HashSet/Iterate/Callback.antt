-- ===== src/Container/HashSet/Iterate/Callback.antt =====
-- `hashset_iteratorNextObject`, the callback of the iterators of a hash set.
use firedrake.Common.{
  ℕ, zero, suc, ◌+◌, ◌≤◌, ◌<◌, ◌≡◌, refl, sym, ap, ◌∙◌, ◌⊎◌, inl, inr, Bool, true, false, Option,
  none, some, List, [], ◌∷◌, ◌++◌, ◌==◌, if◌then◌else◌, arith, length, take, drop, set, length-set,
  Bool-cases, Option-cases, some_inj,
}
use mathlib.Core.List.{append_assoc}
use mathlib.Core.Path.{subst}
use firedrake.Container.HashSet.{Bucket, Chain, HashSet, objects_in, all_objects}
use firedrake.Container.HashSet.Iterate.{
  first_in, scan, next_bucket, remaining, Next, next_bucket-Next,
}
use firedrake.Container.Array.Words.{take-set_last}
use firedrake.Container.Iterator.{Iterator, Fetch, create}
use firedrake.Container.Iterator.Drain.{Honest, collect, then_null, collect-create}

-- `custom[0]`, the rest of a chain, `custom[1]`, and whether `custom[3]` is not 0
pub record Cursor : Type 0 where
  pub rest : Chain
  pub index : ℕ
  pub keys : Bool

-- The loop, from `i` on with `n` rounds left until `maxObjects`: the objects, the words behind it, and `i`.
pub gather : List Chain → Cursor → (i n : ℕ) → (objects : List ℕ) → (List ℕ × Cursor × ℕ)
gather buckets cursor i zero objects = (objects, cursor, i)
gather buckets cursor i (suc n) objects = elim (next_bucket buckets cursor.rest cursor.index) [
  | none ↦ (objects, record cursor { rest = [] }, i)
  | some found ↦
      let next : Cursor = record cursor { rest = found.1; index = found.2 } in
      let object = if cursor.keys then (found.0).key else (found.0).data_pointer in
      let more = gather buckets next (i + 1) n (set objects i object) in
      if object == 0 then (objects, next, i) else more
]

-- `hashset_iteratorNextObject`
pub iterator_next : Fetch HashSet Cursor
iterator_next it limit =
    let gathered = gather (it.data_of).buckets it.custom 0 limit it.objects in
    (record it { custom = gathered.1; objects = gathered.0 }, gathered.2)

-- `hashset_iterator`
unfoldable pub iterator :
    (given : Bool) → (objects : List ℕ) → HashSet → Option (Iterator HashSet Cursor)
iterator given objects s = create given objects (record { rest = []; index = 0; keys = false }) s

-- `hashset_keyIterator`; none is a write through the `NULL` pointer
pub key_iterator : (given : Bool) → (objects : List ℕ) → HashSet → Option (Iterator HashSet Cursor)
key_iterator given objects s = elim (iterator given objects s) [
  | none ↦ none
  | some it ↦ some (record it { custom = record (it.custom) { keys = true } })
]

-- a bucket that is found has an object
first_in-held :
    (c : Chain) (found : Bucket × Chain)
    → first_in c ≡ some found
    → ((found.0).data_pointer == 0) ≡ false
unfolding first_in
first_in-held [] found e = absurd (cc)
first_in-held (b ∷ bs) found e = elim (Bool-cases (b.data_pointer == 0)) [
  | inl empty ↦ first_in-held bs found (ground arith)
  | inr held ↦
      let same : (b, bs) ≡ found = some_inj (ground arith) in
      ap (λ (p : Bucket × Chain). (p.0).data_pointer == 0) (sym same) ∙ held
]

scan-held :
    (cs : List Chain) (index : ℕ) (found : Bucket × Chain × ℕ)
    → scan cs index ≡ some found
    → ((found.0).data_pointer == 0) ≡ false
unfolding scan
scan-held [] index found e = absurd (cc)
scan-held (c ∷ cs) index found e = elim (Option-cases (first_in c)) [
  | inl miss ↦ scan-held cs (index + 1) found (sym (rw (miss, scan) refl) ∙ e)
  | inr (hit, is) ↦
      let same : (hit.0, hit.1, index + 1) ≡ found = some_inj (sym (rw (is, scan) refl) ∙ e) in
      ap (λ (p : Bucket × Chain × ℕ). (p.0).data_pointer == 0) (sym same) ∙ first_in-held c hit is
]

next_bucket-held :
    (buckets : List Chain) (rest : Chain) (index : ℕ) (found : Bucket × Chain × ℕ)
    → next_bucket buckets rest index ≡ some found
    → ((found.0).data_pointer == 0) ≡ false
unfolding next_bucket
next_bucket-held buckets rest index found e = elim (Option-cases (first_in rest)) [
  | inl miss ↦ scan-held (drop index buckets) index found (sym (rw (miss, next_bucket) refl) ∙ e)
  | inr (hit, is) ↦
      let same : (hit.0, hit.1, index) ≡ found = some_inj (sym (rw (is, next_bucket) refl) ∙ e) in
      ap (λ (p : Bucket × Chain × ℕ). (p.0).data_pointer == 0) (sym same)
      ∙ first_in-held rest hit is
]

-- the objects to come for a cursor
abbrev pub to_come : HashSet → Cursor → List ℕ
to_come s cursor = remaining s.buckets cursor.rest cursor.index

abbrev pub GivesObjects : HashSet → Cursor → Type 0
GivesObjects s cursor = cursor.keys ≡ false

-- What the loop has to give: it goes on to `r.2`, and has written the objects up to there.
record Gathered (s : HashSet) (cursor : Cursor) (i n : ℕ) (objects : List ℕ)
    (r : List ℕ × Cursor × ℕ) : Type 0 where
  size : length r.0 ≡ length objects
  number : r.2 ≤ i + n
  keys : GivesObjects s r.1
  written : take r.2 r.0 ++ to_come s r.1 ≡ take i objects ++ to_come s cursor
  stopped : (r.2 ≡ i + n) ⊎ (to_come s r.1 ≡ [])

append-nil_right : (xs ys : List ℕ) → xs ++ ys ≡ [] → ys ≡ []
append-nil_right [] ys e = e
append-nil_right (x ∷ xs) ys e = absurd (cc)

-- one more object written
written-next :
    (i : ℕ) (objects left left' : List ℕ) (object : ℕ)
    → i < length objects
    → left ≡ object ∷ left'
    → take (i + 1) (set objects i object) ++ left' ≡ take i objects ++ left
written-next i objects left left' object room e =
    let next : i + 1 ≡ suc i = omega arith in
    rw next (
      ap (λ os. os ++ left') (take-set_last objects i object room)
      ∙ append_assoc (take i objects) (object ∷ []) left'
      ∙ ap (λ os. take i objects ++ os) (sym e))

gather-Gathered :
    (s : HashSet) (cursor : Cursor) (i n : ℕ) (objects : List ℕ)
    → GivesObjects s cursor
    → i + n ≤ length objects
    → Gathered s cursor i n objects (gather s.buckets cursor i n objects)
unfolding gather Next all_objects objects_in
gather-Gathered s cursor i zero objects keys room = record {
  size = refl;
  number = omega arith;
  keys = keys;
  written = refl;
  stopped = inl (omega arith);
}
gather-Gathered s cursor i (suc n) objects keys room =
    let next = next_bucket-Next s.buckets cursor.rest cursor.index in
    elim (Option-cases (next_bucket s.buckets cursor.rest cursor.index)) [
      | inl miss ↦
          let nothing : to_come s cursor ≡ [] =
            subst (Next (to_come s cursor) s.buckets) miss next in
          let behind =
            append-nil_right (objects_in cursor.rest) (all_objects (drop cursor.index s.buckets))
              nothing in
          rw (miss, gather)
            (record {
              size = refl;
              number = omega arith;
              keys = keys;
              written = ap (λ os. take i objects ++ os) (behind ∙ sym nothing);
              stopped = inr behind;
            })
      | inr (found, hit) ↦
          let object = (found.0).data_pointer in
          let after : Cursor = record cursor { rest = found.1; index = found.2 } in
          let held : (object == 0) ≡ false =
            next_bucket-held s.buckets cursor.rest cursor.index found hit in
          let first : to_come s cursor ≡ object ∷ to_come s after =
            subst (Next (to_come s cursor) s.buckets) hit next in
          let taken : (if cursor.keys then (found.0).key else object) ≡ object =
            ap (λ (b : Bool). if b then (found.0).key else object) keys in
          let wider : length (set objects i object) ≡ length objects =
            length-set objects i object in
          let more =
            gather-Gathered s after (i + 1) n (set objects i object) keys (omega (arith, wider)) in
          rw (hit, taken, held, gather)
            (record {
              size = more.size ∙ wider;
              number = omega (arith, more.number);
              keys = more.keys;
              written =
                  more.written
                  ∙ written-next i objects (to_come s cursor) (to_come s after) object (omega arith)
                      first;
              stopped = elim (more.stopped) [ inl e ↦ inl (e ∙ omega arith) | inr e ↦ inr e ];
            })
    ]

iterator_next-Honest : Honest to_come GivesObjects iterator_next
unfolding iterator_next
iterator_next-Honest it keys size =
    let s = it.data_of in
    let g = gather-Gathered s it.custom 0 10 it.objects keys (omega arith) in
    let gathered = gather s.buckets it.custom 0 10 it.objects in
    record {
      good = g.keys;
      size = g.size ∙ size;
      number = g.number;
      chunk = sym (g.written);
      last = λ none_given. elim (g.stopped) [
        | inl full ↦ absurd (omega arith)
        | inr at_end ↦
            sym (g.written)
            ∙ ap (λ k. take k gathered.0 ++ to_come s gathered.1) none_given
            ∙ at_end
      ];
    }

-- The iterator that `hashset_iterator` creates gives the objects of the set's buckets in the order in
-- which `hashset_allObjects` collects them, and `NULL` from then on, however many calls there are.
pub collect-all_objects :
    (s : HashSet) (given : Bool) (objects : List ℕ) (calls : ℕ) (it : Iterator HashSet Cursor)
    → length objects ≡ 10
    → iterator given objects s ≡ some it
    → collect iterator_next calls it ≡ then_null calls (all_objects s.buckets)
unfolding iterator all_objects objects_in
collect-all_objects s given objects calls it size e =
    collect-create to_come GivesObjects iterator_next calls given objects
      (record { rest = []; index = 0; keys = false }) s it iterator_next-Honest refl size e
