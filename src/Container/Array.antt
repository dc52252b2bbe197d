-- ===== src/Container/Array.antt =====
-- sys/container/array.c: an array of pointers that grows and shrinks. The memory at `data` is a list of
-- `space` words.
pub mod Words
pub mod Splice
pub mod Edit
pub mod Locate
pub mod Iterate
pub mod Sort
mod Tests
use firedrake.Common.{
  ℕ, zero, suc, ◌+◌, ◌-◌, ◌*◌, ◌/◌, ◌%◌, Bool, true, false, Option, none, some, List, [], ◌∷◌, ◌==◌,
  ltb, leb, not, if◌then◌else◌, length, get_or, set, take, word, add32, sub32, mul32,
}

-- `UINT32_MAX`
abbrev pub no_step : ℕ
no_step = 0xFFFFFFFF

-- `array_t`
pub record Array : Type 0 where
  pub count : ℕ
  pub space : ℕ
  pub allocation_step : ℕ
  pub data_words : List ℕ
  pub lock : Bool

-- What `halloc` gives for a number of bytes: the words of the memory, or none.
abbrev pub Allocator : Type 0
Allocator = ℕ → Option (List ℕ)

-- `data`, a `NULL` pointer being memory of no words
abbrev pub or_null : Option (List ℕ) → List ℕ
or_null none = []
or_null (some ws) = ws

-- `array_create`, `given` being whether `halloc` has memory for the struct
pub create : (given : Bool) → Allocator → Option Array
create given halloc =
    if given
    then some (record {
      count = 0;
      space = 5;
      allocation_step = no_step;
      data_words = or_null (halloc 20);
      lock = false;
    })
    else none

-- `memcpy` of `n` words
pub copy_words : (to from : List ℕ) → ℕ → List ℕ
copy_words (t ∷ ts) (f ∷ fs) (suc n) = f ∷ copy_words ts fs n
copy_words ts fs n = ts

-- `array_copy`
pub copy : (given : Bool) → Allocator → Array → Option Array
copy given halloc source =
    if given
    then some (record {
      count = source.count;
      space = source.space;
      allocation_step = source.allocation_step;
      data_words =
          copy_words (or_null (halloc (mul32 source.space 4))) source.data_words source.count;
      lock = false;
    })
    else none

-- `array_lock` returns where nobody holds the lock
pub lock_array : Array → Option Array
lock_array a = if a.lock then none else some (record a { lock = true })

pub unlock_array : Array → Array
unlock_array a = record a { lock = false }

-- the `space` that it grows to
pub next_space : Array → ℕ
next_space a =
    if not (a.allocation_step == no_step) then add32 a.space a.allocation_step else mul32 a.space 2

-- `__array_resizeToNextStepIfNeeded`; here and below, none is a call that panics
pub resize : Allocator → Array → Option Array
resize halloc a =
    let space = next_space a in
    if leb (sub32 a.space 1) a.count
    then elim (halloc (mul32 space 4)) [
      | none ↦ none
      | some ws ↦ some (record a { space = space; data_words = copy_words ws a.data_words a.count })
    ]
    else some a

-- the end of `array_addObject`
pub put_last : ℕ → Array → Array
put_last object a = record a {
  data_words = set a.data_words a.count object;
  count = add32 a.count 1;
}

-- `array_addObject`
pub add_object : Allocator → Array → (object : ℕ) → Option Array
add_object halloc a object = elim (resize halloc a) [
  | none ↦ none
  | some b ↦ some (put_last object b)
]

-- the loop of `array_insertObject`, with `n` rounds left until `i` is `index`
pub shift_up : List ℕ → (index n : ℕ) → List ℕ
shift_up d index zero = d
shift_up d index (suc n) = shift_up (set d (index + suc n) (get_or d (index + n) 0)) index n

-- the end of `array_insertObject`
pub put_at : (object index : ℕ) → Array → Array
put_at object index a = record a {
  data_words = set (shift_up a.data_words index (a.count - index)) index object;
  count = add32 a.count 1;
}

-- `array_insertObject`
pub insert_object : Allocator → Array → (object index : ℕ) → Option Array
insert_object halloc a object index =
    if ltb index a.count
    then elim (resize halloc a) [ none ↦ none | some b ↦ some (put_at object index b) ]
    else none

-- the `space` that it shrinks to
pub less_space : Array → ℕ
less_space a =
    let less =
      if a.allocation_step == no_step then a.space / 2 else sub32 a.space a.allocation_step in
    if ltb a.space less then add32 a.count 5 else less

-- `__array_collapseIfNeeded`; it keeps the array where there is no memory
pub collapse : Allocator → Array → Array
collapse halloc a =
    let space = less_space a in
    if ltb a.count space
    then elim (halloc (mul32 space 4)) [
      | none ↦ a
      | some ws ↦ record a { space = space; data_words = copy_words ws a.data_words a.count }
    ]
    else a

-- the loop of `array_removeObjectAtIndex`, with `n` rounds left, at the word `at`
pub shift_down : List ℕ → (at n : ℕ) → List ℕ
shift_down d at zero = d
shift_down d at (suc n) = shift_down (set d at (get_or d (at + 1) 0)) (at + 1) n

pub take_out : (index : ℕ) → Array → Array
take_out index a = record a {
  data_words =
      if ltb index (sub32 a.count 1)
      then shift_down a.data_words index (a.count - index - 1)
      else a.data_words;
  count = sub32 a.count 1;
}

-- `array_removeObjectAtIndex`
pub remove_object_at_index : Allocator → Array → (index : ℕ) → Option Array
remove_object_at_index halloc a index =
    if ltb index a.count then some (collapse halloc (take_out index a)) else none

-- the loop of `array_indexOfObject` over the first `n` words, from index `i` on
pub search : List ℕ → (object i n : ℕ) → ℕ
search d object i zero = 0xFFFFFFFF
search d object i (suc n) =
    let rest = search d object (i + 1) n in if get_or d i 0 == object then i else rest

-- `array_indexOfObject`
pub index_of_object : Array → (object : ℕ) → ℕ
index_of_object a object = search a.data_words object 0 a.count

-- `array_removeObject`
pub remove_object : Allocator → Array → (object : ℕ) → Option Array
remove_object halloc a object = remove_object_at_index halloc a (index_of_object a object)

-- `array_removeAllObjects`
pub remove_all_objects : Allocator → Array → Array
remove_all_objects halloc a = record a { count = 0; space = 5; data_words = or_null (halloc 20) }

-- `array_count`
pub array_count : Array → ℕ
array_count a = a.count

-- `array_objectAtIndex`
pub object_at_index : Array → (index : ℕ) → Option ℕ
object_at_index a index = if ltb index a.count then some (get_or a.data_words index 0) else none

-- `array_iteratorNextObject` from the place `index`: the objects fetched, at most `max_objects`
pub iterator_next : Array → (index max_objects : ℕ) → List ℕ
iterator_next a index zero = []
iterator_next a index (suc n) =
    let rest = iterator_next a (index + 1) n in
    if leb a.count index then [] else get_or a.data_words index 0 ∷ rest
