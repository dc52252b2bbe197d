-- ===== src/Container/LinkedList/Seg.antt =====
-- Doubly linked segments of a heap, and what the link updates do to them.
use firedrake.Common.{
  ℕ, ◌≡◌, ◌≢◌, ap, sym, ◌∙◌, Bool, true, false, ◌||◌, List, [], ◌∷◌, ◌++◌, arith, ◌==◌,
}
use mathlib.Core.Path.{subst}
use firedrake.Container.LinkedList.{Links, Heap, set_next, set_prev, relink_next, relink_prev}

abbrev pub head_or : ℕ → List ℕ → ℕ
head_or d [] = d
head_or d (x ∷ xs) = x

abbrev pub last_or : ℕ → List ℕ → ℕ
last_or d [] = d
last_or d (x ∷ xs) = last_or x xs

abbrev pub mem : ℕ → List ℕ → Bool
mem a [] = false
mem a (x ∷ xs) = (a == x) || mem a xs

abbrev pub Distinct : List ℕ → Type 0
Distinct [] = Unit
Distinct (x ∷ xs) = (mem x xs ≡ false) × Distinct xs

-- The entries `xs` are linked to one another in both directions; the first one's `prev` is `p`, and
-- the last one's `next` is `q`.
abbrev pub Seg : Heap → ℕ → List ℕ → ℕ → Type 0
Seg h p [] q = Unit
Seg h p (x ∷ xs) q = (x ≢ 0) × ((h x).prev ≡ p) × ((h x).next ≡ head_or q xs) × Seg h x xs q

-- `g` has the links of `h` at the entries `xs`.
abbrev pub Same : Heap → Heap → List ℕ → Type 0
Same h g xs = (a : ℕ) → mem a xs ≡ true → g a ≡ h a

pub frame : (h g : Heap) (p : ℕ) (xs : List ℕ) (q : ℕ) → Same h g xs → Seg h p xs q → Seg g p xs q
frame h g p [] q same s = tt
frame h g p (x ∷ xs) q same (nz, back, fwd, s) =
    let e : g x ≡ h x = same x (ground arith) in
    (nz, rw e back, rw e fwd, frame h g x xs q (λ a i. same a (ground (arith, i))) s)

pub last-mem : (x : ℕ) (xs : List ℕ) → mem (last_or x xs) (x ∷ xs) ≡ true
last-mem x [] = ground arith
last-mem x (y ∷ ys) = ground (arith, last-mem y ys)

pub Seg-append :
    (h : Heap) (p : ℕ) (xs ys : List ℕ) (q : ℕ)
    → Seg h p xs (head_or q ys)
    → Seg h (last_or p xs) ys q
    → Seg h p (xs ++ ys) q
Seg-append h p [] ys q s t = t
Seg-append h p (x ∷ []) ys q (nz, back, fwd, s) t = (nz, back, fwd, t)
Seg-append h p (x ∷ y ∷ xs) ys q (nz, back, fwd, s) t =
    (nz, back, fwd, Seg-append h x (y ∷ xs) ys q s t)

pub Seg-split :
    (h : Heap) (p : ℕ) (xs ys : List ℕ) (q : ℕ)
    → Seg h p (xs ++ ys) q
    → Seg h p xs (head_or q ys) × Seg h (last_or p xs) ys q
Seg-split h p [] ys q s = (tt, s)
Seg-split h p (x ∷ []) ys q (nz, back, fwd, s) = ((nz, back, fwd, tt), s)
Seg-split h p (x ∷ y ∷ xs) ys q (nz, back, fwd, s) =
    let (front, rest) = Seg-split h x (y ∷ xs) ys q s in ((nz, back, fwd, front), rest)

pub last-ne-zero :
    (h : Heap) (p x : ℕ) (xs : List ℕ) (q : ℕ) → Seg h p (x ∷ xs) q → last_or x xs ≢ 0
last-ne-zero h p x [] q (nz, _, _, _) = nz
last-ne-zero h p x (y ∷ ys) q (_, _, _, s) = last-ne-zero h x y ys q s

pub not-last : (a x : ℕ) (xs : List ℕ) → mem a (x ∷ xs) ≡ false → a ≢ last_or x xs
not-last a x xs out e =
    let hit : mem a (x ∷ xs) ≡ true = subst (λ z. mem z (x ∷ xs) ≡ true) (sym e) (last-mem x xs) in
    cc

pub ne_of_mem : (a e : ℕ) (xs : List ℕ) → mem a xs ≡ true → mem e xs ≡ false → a ≢ e
ne_of_mem a e xs i out q = let hit : mem e xs ≡ true = subst (λ z. mem z xs ≡ true) q i in cc

pub set_next_other : (h : Heap) (p v a : ℕ) → a ≢ p → set_next h p v a ≡ h a
unfolding set_next
set_next_other h p v a ne = ground arith

pub set_prev_other : (h : Heap) (p v a : ℕ) → a ≢ p → set_prev h p v a ≡ h a
unfolding set_prev
set_prev_other h p v a ne = ground arith

-- The link behind the last entry is moved.
pub set_next-Seg :
    (h : Heap) (p x : ℕ) (xs : List ℕ) (q r : ℕ)
    → Distinct (x ∷ xs)
    → Seg h p (x ∷ xs) q
    → Seg (set_next h (last_or x xs) r) p (x ∷ xs) r
unfolding set_next
set_next-Seg h p x [] q r d (nz, back, fwd, s) = (nz, ground arith, ground arith, tt)
set_next-Seg h p x (y ∷ ys) q r (out, d) (nz, back, fwd, s) =
    let e = set_next_other h (last_or y ys) r x (not-last x y ys out) in
    (
      nz,
      ap (λ (n : Links). n.prev) e ∙ back,
      ap (λ (n : Links). n.next) e ∙ fwd,
      set_next-Seg h x y ys q r d s,
    )

pub relink_next_at : (h : Heap) (p v : ℕ) → p ≢ 0 → relink_next h p v ≡ set_next h p v
unfolding relink_next
relink_next_at h p v nz = ground arith

pub relink_prev_at : (h : Heap) (p v : ℕ) → p ≢ 0 → relink_prev h p v ≡ set_prev h p v
unfolding relink_prev
relink_prev_at h p v nz = ground arith

-- The link before the first entry is moved.
pub set_prev-Seg :
    (h : Heap) (p x : ℕ) (xs : List ℕ) (q r : ℕ)
    → Distinct (x ∷ xs)
    → Seg h p (x ∷ xs) q
    → Seg (set_prev h x r) r (x ∷ xs) q
unfolding set_prev
set_prev-Seg h p x xs q r (out, d) (nz, back, fwd, s) =
    (nz, ground arith, ground arith, frame h (set_prev h x r) x xs q (λ a i. ground (arith, i)) s)
