-- ===== src/Container/LinkedList/Remove.antt =====
-- `list_removeSoft` and `list_destroy` on a list that stands for a sequence of entries.
use firedrake.Common.{
  ℕ, ◌%◌, ◌≡◌, ◌≢◌, refl, ap, sym, ◌∙◌, true, false, List, [], ◌∷◌, ◌++◌, arith, ◌==◌,
  if◌then◌else◌, length, length-append, word, Bool-cases, inl, inr,
}
use mathlib.Core.Path.{subst}
use mathlib.Core.List.{append-nil}
use firedrake.Container.LinkedList.{Heap, LinkedList, relink_next, relink_prev, remove_soft}
use firedrake.Container.LinkedList.Seg.{
  head_or, last_or, mem, Distinct, Seg, frame, last-mem, not-last, last-ne-zero, Seg-append,
  Seg-split, set_next-Seg, set_prev-Seg, set_next_other, set_prev_other, relink_next_at,
  relink_prev_at,
}
use firedrake.Container.LinkedList.Insert.{Represents, Gives, Gives-mono, SameOutside, mem-append}

Distinct-append :
    (xs ys : List ℕ)
    → Distinct (xs ++ ys)
    → Distinct xs × Distinct ys × ((a : ℕ) → mem a xs ≡ true → mem a ys ≡ false)
Distinct-append [] ys d = (tt, d, λ a i. cc)
Distinct-append (x ∷ xs) ys (out, d) =
    let (front, back, apart) = Distinct-append xs ys d in
    let split = mem-append x xs ys in
    ((ground arith, front), back, λ a i. ground (arith, apart a, i))

Distinct-join :
    (xs ys : List ℕ)
    → Distinct xs
    → Distinct ys
    → ((a : ℕ) → mem a xs ≡ true → mem a ys ≡ false)
    → Distinct (xs ++ ys)
Distinct-join [] ys d e apart = e
Distinct-join (x ∷ xs) ys (out, d) e apart = (
  ground (arith, mem-append x xs ys, apart x),
  Distinct-join xs ys d e (λ a i. ground (arith, apart a, i)),
)

-- The heap after the links round an entry between `xs` and `ys` have been moved past it.
abbrev bridged : Heap → List ℕ → List ℕ → Heap
bridged h xs ys =
    relink_prev (relink_next h (last_or 0 xs) (head_or 0 ys)) (head_or 0 ys) (last_or 0 xs)

relink_next-Seg :
    (h : Heap) (xs : List ℕ) (q r : ℕ)
    → Distinct xs
    → Seg h 0 xs q
    → Seg (relink_next h (last_or 0 xs) r) 0 xs r
relink_next-Seg h [] q r d s = tt
relink_next-Seg h (x ∷ xs) q r d s =
    subst (λ k. Seg k 0 (x ∷ xs) r)
      (sym (relink_next_at h (last_or x xs) r (last-ne-zero h 0 x xs q s)))
      (set_next-Seg h 0 x xs q r d s)

relink_prev-Seg :
    (h : Heap) (p : ℕ) (ys : List ℕ) (r : ℕ)
    → Distinct ys
    → Seg h p ys 0
    → Seg (relink_prev h (head_or 0 ys) r) r ys 0
relink_prev-Seg h p [] r d s = tt
relink_prev-Seg h p (y ∷ ys) r d s =
    subst (λ k. Seg k r (y ∷ ys) 0) (sym (relink_prev_at h y r s.0)) (set_prev-Seg h p y ys 0 r d s)

-- Only the last entry of `xs` and the first one of `ys` change.
relink_next-outside :
    (h : Heap) (xs : List ℕ) (r a : ℕ) → mem a xs ≡ false → relink_next h (last_or 0 xs) r a ≡ h a
unfolding relink_next
relink_next-outside h [] r a out = refl
relink_next-outside h (x ∷ xs) r a out =
    ground (arith, set_next_other h (last_or x xs) r a (not-last a x xs out))

relink_prev-outside :
    (h : Heap) (ys : List ℕ) (r a : ℕ) → mem a ys ≡ false → relink_prev h (head_or 0 ys) r a ≡ h a
unfolding relink_prev
relink_prev-outside h [] r a out = refl
relink_prev-outside h (y ∷ ys) r a out = ground (arith, set_prev_other h y r a)

first_removed :
    (f e : ℕ) (xs ys : List ℕ)
    → f ≡ head_or 0 (xs ++ e ∷ ys)
    → mem e xs ≡ false
    → (if f == e then head_or 0 ys else f) ≡ head_or 0 (xs ++ ys)
first_removed f e [] ys p out = ground arith
first_removed f e (x ∷ xs) ys p out = ground arith

last_or-append :
    (d : ℕ) (xs : List ℕ) (e : ℕ) (ys : List ℕ) → last_or d (xs ++ e ∷ ys) ≡ last_or e ys
last_or-append d [] e ys = refl
last_or-append d (x ∷ xs) e ys = last_or-append x xs e ys

-- What `list_removeSoft` makes of a list, the entry standing between `xs` and `ys`. All is as for a
-- list of the other entries, but `last`: it is the entry before the removed one.
pub record Removed (h : Heap) (xs ys : List ℕ) (e : ℕ) (l' : LinkedList) (h' : Heap) : Type 0 where
  pub seg : Seg h' 0 (xs ++ ys) 0
  pub distinct : Distinct (xs ++ ys)
  pub first : l'.first ≡ head_or 0 (xs ++ ys)
  pub last : l'.last ≡ last_or 0 xs
  pub count : l'.count ≡ length (xs ++ ys) % word
  pub unlocked : l'.internal_lock ≡ false
  pub outside : SameOutside h h' (xs ++ ys)

module _ {h : Heap} {l : LinkedList} (xs ys : List ℕ) (e : ℕ)
    (is : Represents h l (xs ++ e ∷ ys)) where
  parts :
      Seg h 0 xs e
      × (e ≢ 0)
      × ((h e).prev ≡ last_or 0 xs)
      × ((h e).next ≡ head_or 0 ys)
      × Seg h e ys 0
  parts =
      let (front, rest) = Seg-split h 0 xs (e ∷ ys) 0 is.seg in
      (front, rest.0, rest.1, rest.2, rest.3)

  apart :
      Distinct xs
      × (mem e ys ≡ false)
      × Distinct ys
      × ((a : ℕ) → mem a xs ≡ true → mem a ys ≡ false)
      × (mem e xs ≡ false)
  apart =
      let (front, (out, back), disjoint) = Distinct-append xs (e ∷ ys) is.distinct in
      (
        front,
        out,
        back,
        λ a i. ground (arith, disjoint a i),
        elim (Bool-cases (mem e xs)) [ inl i ↦ ground (arith, disjoint e i) | inr o ↦ o ],
      )

  Seg-bridged : Seg (bridged h xs ys) 0 (xs ++ ys) 0
  Seg-bridged =
      let (front, nz, _, _, back) = parts in
      let (dx, _, dy, disjoint, _) = apart in
      let g = relink_next h (last_or 0 xs) (head_or 0 ys) in
      let backwards : (a : ℕ) → mem a ys ≡ true → mem a xs ≡ false =
        λ a i. elim (Bool-cases (mem a xs)) [ inl j ↦ ground (arith, disjoint a j) | inr o ↦ o ] in
      Seg-append (bridged h xs ys) 0 xs ys 0
        (frame g (bridged h xs ys) 0 xs (head_or 0 ys)
          (λ a i. relink_prev-outside g ys (last_or 0 xs) a (disjoint a i))
          (relink_next-Seg h xs e (head_or 0 ys) dx front))
        (relink_prev-Seg g e ys (last_or 0 xs) dy (
          frame h g e ys 0 (λ a i. relink_next-outside h xs (head_or 0 ys) a (backwards a i)) back))

  bridged-outside : SameOutside h (bridged h xs ys) (xs ++ ys)
  bridged-outside a out =
      let split = mem-append a xs ys in
      let in_xs : mem a xs ≡ false = ground arith in
      let in_ys : mem a ys ≡ false = ground arith in
      relink_prev-outside (relink_next h (last_or 0 xs) (head_or 0 ys)) ys (last_or 0 xs) a in_ys
      ∙ relink_next-outside h xs (head_or 0 ys) a in_xs

  last-ne-zero_here : l.last ≢ 0
  last-ne-zero_here =
      let (_, rest) = Seg-split h 0 xs (e ∷ ys) 0 is.seg in
      λ z. last-ne-zero h (last_or 0 xs) e ys 0 rest (sym (is.last ∙ last_or-append 0 xs e ys) ∙ z)

  -- `list_removeSoft` of an entry of a list that stands for `xs`, the entry and `ys` returns. The links
  -- then are those of `xs ++ ys`, `first` and the count are right, the lock is free, no other links
  -- change, and `last` is the last entry of `xs`, whatever `ys` is.
  pub remove_soft-Removed : Gives (Removed h xs ys e) (remove_soft l e h)
  unfolding remove_soft
  remove_soft-Removed =
      let (_, _, back, fwd, _) = parts in
      let (dx, _, dy, disjoint, out) = apart in
      rw (is.unlocked, back, fwd)
        (record {
          seg = Seg-bridged;
          distinct = Distinct-join xs ys dx dy disjoint;
          first = first_removed l.first e xs ys is.first out;
          last = ground (arith, last-ne-zero_here);
          count = omega (arith, is.count, length-append xs (e ∷ ys), length-append xs ys);
          unlocked = refl;
          outside = bridged-outside;
        })

-- `list_removeSoft` of the last entry of a list leaves a list that stands for the other entries.
remove_soft-last :
    {h : Heap} {l : LinkedList} (xs : List ℕ) (e : ℕ)
    → Represents h l (xs ++ e ∷ [])
    → Gives (λ l' h'. Represents h' l' xs) (remove_soft l e h)
remove_soft-last {h} {l} xs e is =
    Gives-mono (remove_soft l e h) (remove_soft-Removed xs [] e is) λ l' h' r.
      subst (Represents h' l') (append-nil xs) (record {
        seg = r.seg;
        distinct = r.distinct;
        first = r.first;
        last = r.last ∙ ap (last_or 0) (sym (append-nil xs));
        count = r.count;
        unlocked = r.unlocked;
      })

last-moved :
    (h : Heap) (p : ℕ) (xs : List ℕ) (y : ℕ) (ys : List ℕ)
    → Distinct (xs ++ y ∷ ys)
    → Seg h 0 (xs ++ y ∷ ys) 0
    → last_or 0 xs ≢ last_or y ys
last-moved h p [] y ys d s e = last-ne-zero h 0 y ys 0 s (sym e)
last-moved h p (x ∷ xs) y ys d s e =
    let (_, _, disjoint) = Distinct-append (x ∷ xs) (y ∷ ys) d in
    not-last (last_or x xs) y ys (disjoint (last_or x xs) (last-mem x xs)) e

-- After `list_removeSoft` of an entry that others follow, `last` is the entry before it (or `NULL`),
-- so that the list does not stand for the entries that are left.
pub remove_soft-inner :
    {h : Heap} {l : LinkedList} (xs : List ℕ) (e y : ℕ) (ys : List ℕ)
    → Represents h l (xs ++ e ∷ y ∷ ys)
    → Gives
        (λ l' h'. (l'.last ≡ last_or 0 xs) × (¬ (Represents h' l' (xs ++ y ∷ ys))))
        (remove_soft l e h)
remove_soft-inner {h} {l} xs e y ys is =
    Gives-mono (remove_soft l e h) (remove_soft-Removed xs (y ∷ ys) e is) λ l' h' r. (
      r.last,
      λ is'.
          last-moved h' 0 xs y ys r.distinct r.seg
            (sym r.last ∙ is'.last ∙ last_or-append 0 xs y ys),
    )
