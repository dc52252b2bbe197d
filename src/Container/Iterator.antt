-- ===== src/Container/Iterator.antt =====
-- sys/container/iterator.c: an iterator, which takes a container's objects in chunks from a callback.
-- `custom` are the words that the callback keeps there, read as it reads them.
pub mod Drain
mod Tests
use firedrake.Common.{
  ℕ, zero, suc, ◌+◌, ◌-◌, Bool, Option, none, some, List, [], ◌∷◌, ◌==◌, if◌then◌else◌, get_or,
}

-- `kIteratorMaxObjects`
abbrev pub max_objects : ℕ
max_objects = 10

-- `iterator_t`, but for the callbacks
pub record Iterator (D C : Type 0) : Type 0 where
  pub data_of : D
  pub custom : C
  pub objects : List ℕ
  pub object_count : ℕ
  pub index : ℕ
  pub objects_left : ℕ

-- `iterator_fetch_t`: the iterator with objects in `objects`, and their number
abbrev pub Fetch : (D C : Type 0) → Type 0
Fetch D C = Iterator D C → ℕ → (Iterator D C × ℕ)

module _ {D C : Type 0} where
  -- The new iterator. `objects` is what the memory holds, `cleared` are words of 0.
  pub fresh : (objects : List ℕ) → (cleared : C) → (data_of : D) → Iterator D C
  fresh objects cleared data_of = record {
    data_of = data_of;
    custom = cleared;
    objects = objects;
    object_count = 0;
    index = 0;
    objects_left = 0;
  }

  -- `iterator_create`, `given` being whether `halloc` has memory
  unfoldable pub create :
      (given : Bool) → (objects : List ℕ) → (cleared : C) → (data_of : D) → Option (Iterator D C)
  create given objects cleared data_of =
      if given then some (fresh objects cleared data_of) else none

  -- the end of `iterator_nextObject`
  pub hand_out : Iterator D C → (Iterator D C × ℕ)
  hand_out it = (
    record it { objects_left = it.objects_left - 1; index = it.index + 1 },
    get_or it.objects it.index 0,
  )

  -- the iterator behind a fetch
  pub refilled : (Iterator D C × ℕ) → Iterator D C
  refilled fetched = record (fetched.0) { objects_left = fetched.1; index = 0 }

  -- `iterator_nextObject`; 0 is `NULL`
  pub next_object : Fetch D C → Iterator D C → (Iterator D C × ℕ)
  next_object fetch it =
      let more = refilled (fetch it max_objects) in
      if it.objects_left == 0
      then if more.objects_left == 0 then (more, 0) else hand_out more
      else hand_out it
