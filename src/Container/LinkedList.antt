-- ===== src/Container/LinkedList.antt =====
-- sys/container/list.c: an intrusive doubly linked list. The entries live in a heap that gives each
-- address its two links; an entry's other fields are the client's, and no operation reads them.
pub mod Seg
pub mod Insert
pub mod Remove
pub mod Add
pub mod Destroy
mod Tests
use firedrake.Common.{
  ℕ, zero, suc, Bool, true, false, Option, none, some, List, [], ◌∷◌, ◌==◌, if◌then◌else◌, not,
  add32, sub32,
}

-- the two pointers that `list_accessNext` and `list_accessPrev` reach in an entry
pub record Links : Type 0 where
  pub next : ℕ
  pub prev : ℕ

abbrev pub Heap : Type 0
Heap = ℕ → Links

-- `fillEntry`: a callback that fills a zeroed entry, and says whether it could.
abbrev pub FillEntry : Type 0
FillEntry = ℕ → Heap → Bool × Heap

-- `list_t`, without the offsets of the links and the entry size, which `Heap` stands for. A lock is
-- held where it is `true`.
pub record LinkedList : Type 0 where
  pub count : ℕ
  pub lock : Bool
  pub internal_lock : Bool
  pub fill_entry : Option FillEntry
  pub first : ℕ
  pub last : ℕ

-- `list_accessNext(list, p) = v` and `list_accessPrev(list, p) = v`
pub set_next : Heap → ℕ → ℕ → Heap
set_next h p v a = if a == p then record { next = v; prev = (h a).prev } else h a

pub set_prev : Heap → ℕ → ℕ → Heap
set_prev h p v a = if a == p then record { next = (h a).next; prev = v } else h a

-- the same behind `if(p)`
pub relink_next : Heap → ℕ → ℕ → Heap
relink_next h p v = if p == 0 then h else set_next h p v

pub relink_prev : Heap → ℕ → ℕ → Heap
relink_prev h p v = if p == 0 then h else set_prev h p v

-- An operation on a list, with the heap; `none` is a call that waits for a lock for ever.
abbrev pub Outcome : Type 0
Outcome = Option (LinkedList × Heap)

-- `list_create`, with what `halloc` returned
pub create : Option ℕ → Option (ℕ × LinkedList)
create none = none
create (some list) = some (
  list,
  record { count = 0; lock = false; internal_lock = false; fill_entry = none; first = 0; last = 0 },
)

-- `list_lock` and `list_unlock`
pub lock_list : LinkedList → Option LinkedList
lock_list l = if l.lock then none else some (record l { lock = true })

pub unlock_list : LinkedList → LinkedList
unlock_list l = record l { lock = false }

-- `list_insertBack`
pub insert_back : LinkedList → ℕ → Heap → Outcome
insert_back l entry h =
    if l.internal_lock
    then none
    else some (
      record l {
        last = entry;
        count = add32 l.count 1;
        first = if l.first == 0 then entry else l.first;
        internal_lock = false;
      },
      relink_next (set_prev (set_next h entry 0) entry l.last) l.last entry,
    )

-- `list_insertFront`
pub insert_front : LinkedList → ℕ → Heap → Outcome
insert_front l entry h =
    if l.internal_lock
    then none
    else some (
      record l {
        first = entry;
        count = add32 l.count 1;
        last = if l.last == 0 then entry else l.last;
        internal_lock = false;
      },
      relink_prev (set_prev (set_next h entry l.first) entry 0) l.first entry,
    )

-- `list_removeSoft`
pub remove_soft : LinkedList → ℕ → Heap → Outcome
remove_soft l entry h =
    let next = (h entry).next in
    let prev = (h entry).prev in
    if l.internal_lock
    then none
    else some (
      record l {
        first = if l.first == entry then next else l.first;
        last = if not (l.last == 0) then prev else l.last;
        count = sub32 l.count 1;
        internal_lock = false;
      },
      relink_prev (relink_next h prev next) next prev,
    )

-- `list_remove`: what `list_removeSoft` does, and the entry that is freed
pub remove : LinkedList → ℕ → Heap → Option ((LinkedList × Heap) × ℕ)
remove l entry h = elim (remove_soft l entry h) [ none ↦ none | some out ↦ some (out, entry) ]

-- What `list_addBack` and `list_addFront` return: the entry (none for `NULL`), the list with the
-- heap, and the entry that was given back to `hfree`.
pub record Added : Type 0 where
  pub entry : Option ℕ
  pub list : LinkedList
  pub heap : Heap
  pub freed : Option ℕ

-- the entry as `memset` leaves it
pub zeroed : Heap → ℕ → Heap
zeroed h p = set_prev (set_next h p 0) p 0

pub fill : Option FillEntry → ℕ → Heap → Bool × Heap
fill none p h = (true, h)
fill (some callback) p h = callback p h

-- the part that the two share, over the insertion that they end in
pub add : (LinkedList → ℕ → Heap → Outcome) → LinkedList → Option ℕ → Heap → Option Added
add insert l none h = some (record { entry = none; list = l; heap = h; freed = none })
add insert l (some p) h =
    let (filled, h') = fill l.fill_entry p (zeroed h p) in
    if filled
    then elim (insert l p h') [
      | none ↦ none
      | some (l', h'') ↦ some (record { entry = some p; list = l'; heap = h''; freed = none })
    ]
    else some (record {
      entry = none;
      list = record l { internal_lock = false };
      heap = h';
      freed = some p;
    })

-- `list_addBack` and `list_addFront`, with what `halloc` returned
pub add_back : LinkedList → Option ℕ → Heap → Option Added
add_back = add insert_back

pub add_front : LinkedList → Option ℕ → Heap → Option Added
add_front = add insert_front

-- the loop of `list_destroy`: the entries in the order in which they are freed, none when the fuel
-- runs out
pub destroy_loop : ℕ → ℕ → Heap → Option (List ℕ)
destroy_loop zero entry h = none
destroy_loop (suc fuel) entry h =
    let rest = destroy_loop fuel (h entry).next h in
    if entry == 0 then some [] else elim rest [ none ↦ none | some freed ↦ some (entry ∷ freed) ]

-- `list_destroy` frees the entries; what it frees last is the list itself.
pub destroy : ℕ → LinkedList → Heap → Option (List ℕ)
destroy fuel l h = destroy_loop fuel l.first h

-- `list_count`, `list_first` and `list_last`
pub list_count : LinkedList → ℕ
list_count l = l.count

pub list_first : LinkedList → ℕ
list_first l = l.first

pub list_last : LinkedList → ℕ
list_last l = l.last
