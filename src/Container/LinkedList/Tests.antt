-- ===== src/Container/LinkedList/Tests.antt =====
-- The theorems on the list at a list of three entries.
use firedrake.Common.{ℕ, ◌≡◌, refl, false, some, none, [], ◌∷◌, arith, ◌==◌, if◌then◌else◌}
use firedrake.Container.LinkedList.{
  Links, Heap, LinkedList, insert_back, remove_soft, destroy, fill, zeroed, add_back,
}
use firedrake.Container.LinkedList.Insert.{Represents, Gives, SameOutside, insert_back_lem}
use firedrake.Container.LinkedList.Seg.{Same}
use firedrake.Container.LinkedList.Remove.{Removed, remove_soft-Removed, remove_soft-inner}
use firedrake.Container.LinkedList.Add.{Adds, add_back-Adds}
use firedrake.Container.LinkedList.Destroy.{destroy_lem}

abbrev links : ℕ → ℕ → Links
links n p = record { next = n; prev = p }

-- three entries at 16, 32 and 48
abbrev heap : Heap
heap a =
    if a == 16
    then links 32 0
    else if a == 32
    then links 48 16
    else if a == 48
    then links 0 32
    else links 0 0

abbrev list : LinkedList
list = record {
  count = 3;
  lock = false;
  internal_lock = false;
  fill_entry = none;
  first = 16;
  last = 48;
}

list-Represents : Represents heap list (16 ∷ 32 ∷ 48 ∷ [])
list-Represents = record {
  seg = (omega arith, refl, refl, (omega arith, refl, refl, (omega arith, refl, refl, tt)));
  distinct = (refl, (refl, (refl, tt)));
  first = refl;
  last = refl;
  count = refl;
  unlocked = refl;
}

insert_back_lem_example :
    Gives
      (λ l' h'.
        Represents h' l' (16 ∷ 32 ∷ 48 ∷ 64 ∷ []) × SameOutside heap h' (64 ∷ 16 ∷ 32 ∷ 48 ∷ []))
      (insert_back list 64 heap)
insert_back_lem_example = insert_back_lem 64 list-Represents (omega arith) refl

remove_soft-Removed_example : Gives (Removed heap (16 ∷ []) (48 ∷ []) 32) (remove_soft list 32 heap)
remove_soft-Removed_example = remove_soft-Removed (16 ∷ []) (48 ∷ []) 32 list-Represents

remove_soft-inner_example :
    Gives
      (λ l' h'. (l'.last ≡ 16) × (¬ (Represents h' l' (16 ∷ 48 ∷ []))))
      (remove_soft list 32 heap)
remove_soft-inner_example = remove_soft-inner (16 ∷ []) 32 48 [] list-Represents

destroy_lem_example : destroy 4 list heap ≡ some (16 ∷ 32 ∷ 48 ∷ [])
destroy_lem_example = destroy_lem 4 list-Represents (omega arith)

keeps : (g : Heap) → Same g (fill list.fill_entry 64 g).1 (16 ∷ 32 ∷ 48 ∷ [])
unfolding fill
keeps g a i = refl

add_back-Adds_example :
    Adds
      (16 ∷ 32 ∷ 48 ∷ [])
      (16 ∷ 32 ∷ 48 ∷ 64 ∷ [])
      64
      (fill none 64 (zeroed heap 64)).0
      (add_back list (some 64) heap)
add_back-Adds_example = add_back-Adds 64 list-Represents (omega arith) refl keeps
