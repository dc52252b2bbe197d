-- ===== src/Container/LinkedList/Destroy.antt =====
-- `list_destroy` on a list that stands for a sequence of entries.
use firedrake.Common.{ℕ, zero, suc, ◌<◌, ◌≡◌, some, List, [], ◌∷◌, arith, length}
use firedrake.Container.LinkedList.{Heap, LinkedList, destroy_loop, destroy}
use firedrake.Container.LinkedList.Seg.{head_or, Seg}
use firedrake.Container.LinkedList.Insert.{Represents}

destroy_loop_lem :
    (fuel : ℕ) (h : Heap) (p : ℕ) (xs : List ℕ)
    → Seg h p xs 0
    → length xs < fuel
    → destroy_loop fuel (head_or 0 xs) h ≡ some xs
unfolding destroy_loop
destroy_loop_lem zero h p xs s f = absurd (omega arith)
destroy_loop_lem (suc fuel) h p [] s f = ground arith
destroy_loop_lem (suc fuel) h p (x ∷ xs) (nz, back, fwd, s) f =
    let rest = destroy_loop_lem fuel h x xs s (omega arith) in rw (fwd, rest) (ground arith)

-- `list_destroy` of a list that stands for `xs` ends within one more round than there are entries, and
-- frees each entry once, first to last.
pub destroy_lem :
    {h : Heap} {l : LinkedList} {xs : List ℕ} (fuel : ℕ)
    → Represents h l xs
    → length xs < fuel
    → destroy fuel l h ≡ some xs
unfolding destroy
destroy_lem {h} {l} {xs} fuel is f = rw is.first (destroy_loop_lem fuel h 0 xs is.seg f)
