-- ===== src/Memory/Zone/Defragment.antt =====
-- `__heap_zoneDefragment`, and what it comes to.
use firedrake.Common.{
  ℕ, zero, suc, ◌+◌, ◌≡◌, refl, sym, ap, ◌∙◌, inl, inr, Bool, true, false, not, ◌&&◌, Option, none,
  some, arith, ltb, leb, ◌==◌, if◌then◌else◌, Option-cases, Bool-cases, ◌%◌, add32, sub32,
}
use firedrake.Memory.Zone.{
  Zone, unused, is_tiny, is_free, is_used, size_mod, address, set_entry, find_with_pointer,
}
use mathlib.Core.Path.{subst}
use firedrake.Memory.Zone.Table.{find-some}
use firedrake.Memory.Zone.Inv.{IsValid}

-- One round of the `while`, on entry `i`: none where it breaks out.
pub merge : Zone → ℕ → Option Zone
merge z i =
    let a = z.table i in
    elim (find_with_pointer z (add32 (address z a) a.size)) [
      | none ↦ none
      | some j ↦
          let b = z.table j in
          if not (is_free b.kind)
          then none
          else if is_tiny z.type && ltb 255 (a.size + b.size)
          then none
          else some (record z {
            table =
                set_entry
                  (set_entry z.table i (record a { size = (a.size + b.size) % size_mod z.type })) j
                  (record { kind = unused; size = b.size; place = 0 });
            allocations = sub32 z.allocations 1;
            free_allocations = sub32 z.free_allocations 1;
          })
    ]

-- the `while` on entry `i`; each round makes an entry unused, so `slots` rounds are enough
pub merge_all : ℕ → Zone → ℕ → Zone
merge_all zero z i = z
merge_all (suc fuel) z i =
    if is_free (z.table i).kind
    then elim (merge z i) [ none ↦ z | some z' ↦ merge_all fuel z' i ]
    else z

-- the `for` over the table from entry `i` on
pub merge_from : ℕ → Zone → ℕ → Zone
merge_from zero z i = z
merge_from (suc rounds) z i = merge_from rounds (merge_all z.slots z i) (i + 1)

pub change_threshold : Zone → ℕ
change_threshold z = if is_tiny z.type then 100 else 20

pub due : Zone → Bool
due z = leb (change_threshold z) z.changes && leb 2 z.free_allocations

-- `__heap_zoneDefragment`
pub defragment : Zone → Zone
defragment z = if due z then record (merge_from z.slots z 0) { changes = 0 } else z

found_used :
    (z : Zone) (pointer j : ℕ)
    → find_with_pointer z pointer ≡ some j
    → is_used (z.table j).kind ≡ true
unfolding find_with_pointer
found_used z pointer j found =
    let (_, _, good) =
      find-some (λ a. (pointer == address z a) && is_used a.kind) z.table z.slots 0 j found in
    ground arith

-- The search for the next block gives used entries only, and the round breaks out of those.
merge-none : (z : Zone) (i : ℕ) → merge z i ≡ none
unfolding merge
merge-none z i =
    let here = add32 (address z (z.table i)) (z.table i).size in
    elim (Option-cases (find_with_pointer z here)) [
      | inl missing ↦ rw (missing, merge) refl
      | inr (j, found) ↦
          let in_use = found_used z here j found in
          let not_free : is_free (z.table j).kind ≡ false = ground arith in
          rw (found, not_free, merge) refl
    ]

merge_all_same : (fuel : ℕ) (z : Zone) (i : ℕ) → merge_all fuel z i ≡ z
unfolding merge_all
merge_all_same zero z i = refl
merge_all_same (suc fuel) z i = ground (arith, merge-none z i)

merge_from_same : (rounds : ℕ) (z : Zone) (i : ℕ) → merge_from rounds z i ≡ z
unfolding merge_from
merge_from_same zero z i = refl
merge_from_same (suc rounds) z i =
    ap (λ y. merge_from rounds y (i + 1)) (merge_all_same z.slots z i)
    ∙ merge_from_same rounds z (i + 1)

-- `__heap_zoneDefragment` never merges blocks: whatever the table holds, all that it can change is
-- the count of changes, which it sets to 0 when it is due.
pub defragment_lem : (z : Zone) → defragment z ≡ (if due z then record z { changes = 0 } else z)
unfolding defragment
defragment_lem z =
    ap (λ (y : Zone). if due z then record y { changes = 0 } else z) (merge_from_same z.slots z 0)

-- So it leaves alone all that the zone's validity and its blocks depend on.
pub defragment-IsValid : (z : Zone) → IsValid z → IsValid (defragment z)
defragment-IsValid z v = subst IsValid (sym (defragment_lem z)) (elim (Bool-cases (due z)) [
  | inl e ↦ rw e (record {
    blocks = v.blocks;
    apart = v.apart;
    end_word = v.end_word;
    tiny_span = v.tiny_span;
    slots_small = v.slots_small;
    live_count = v.live_count;
    free_count = v.free_count;
  })
  | inr e ↦ rw e v
])

-- the fields that it does not touch
pub defragment-same :
    (z : Zone)
    → ((defragment z).slots ≡ z.slots)
      × ((defragment z).begin ≡ z.begin)
      × ((defragment z).end ≡ z.end)
      × ((defragment z).type ≡ z.type)
      × ((defragment z).pages ≡ z.pages)
      × ((defragment z).table ≡ z.table)
defragment-same z = rw (defragment_lem z) (elim (Bool-cases (due z)) [
  | inl e ↦ rw e (refl, refl, refl, refl, refl, refl)
  | inr e ↦ rw e (refl, refl, refl, refl, refl, refl)
])
