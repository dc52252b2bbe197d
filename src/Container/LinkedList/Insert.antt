-- ===== src/Container/LinkedList/Insert.antt =====
-- `list_insertBack` and `list_insertFront` on a list that stands for a sequence of entries.
use firedrake.Common.{
  ℕ, ◌%◌, ◌≡◌, ◌≢◌, refl, ap, sym, ◌∙◌, ◌||◌, false, some, none, List, [], ◌∷◌, ◌++◌, arith, ◌==◌,
  if◌then◌else◌, length, length-append, word,
}
use mathlib.Core.Path.{subst}
use firedrake.Container.LinkedList.{
  Links, Heap, LinkedList, Outcome, set_next, set_prev, relink_next, relink_prev, insert_back,
  insert_front,
}
use firedrake.Container.LinkedList.Seg.{
  head_or, last_or, mem, Distinct, Seg, Same, frame, not-last, last-ne-zero, Seg-append,
  set_next-Seg, set_prev-Seg, ne_of_mem, set_next_other, set_prev_other, relink_next_at,
  relink_prev_at,
}

-- The list stands for the entries `xs` of the heap, first to last, and nobody holds its inner lock.
pub record Represents (h : Heap) (l : LinkedList) (xs : List ℕ) : Type 0 where
  pub seg : Seg h 0 xs 0
  pub distinct : Distinct xs
  pub first : l.first ≡ head_or 0 xs
  pub last : l.last ≡ last_or 0 xs
  pub count : l.count ≡ length xs % word
  pub unlocked : l.internal_lock ≡ false

-- The call returns, and what it leaves has the property.
abbrev pub Gives : (LinkedList → Heap → Type 0) → Outcome → Type 0
Gives P none = ⊥
Gives P (some (l, h)) = P l h

pub Gives-mono :
    {P Q : LinkedList → Heap → Type 0} (o : Outcome)
    → Gives P o
    → ((l : LinkedList) (h : Heap) → P l h → Q l h)
    → Gives Q o
Gives-mono none p weaken = p
Gives-mono (some (l, h)) p weaken = weaken l h p

-- `g` differs from `h` at most at the entries `xs`.
abbrev pub SameOutside : Heap → Heap → List ℕ → Type 0
SameOutside h g xs = (a : ℕ) → mem a xs ≡ false → g a ≡ h a

module _ (h : Heap) (e v w : ℕ) where
  -- the heap in which the new entry has its links
  abbrev pub linked : Heap
  linked = set_prev (set_next h e v) e w

  pub linked_self : linked e ≡ record { next = v; prev = w }
  unfolding set_next set_prev
  linked_self = ground arith

  pub linked_other : (a : ℕ) → a ≢ e → linked a ≡ h a
  unfolding set_next set_prev
  linked_other a ne = ground arith

  pub linked-Same : (xs : List ℕ) → mem e xs ≡ false → Same h linked xs
  linked-Same xs out a i = linked_other a (ne_of_mem a e xs i out)

Seg-insert_back :
    (h : Heap) (xs : List ℕ) (e : ℕ)
    → Seg h 0 xs 0
    → Distinct xs
    → mem e xs ≡ false
    → e ≢ 0
    → Seg (relink_next (linked h e 0 (last_or 0 xs)) (last_or 0 xs) e) 0 (xs ++ e ∷ []) 0
unfolding relink_next
Seg-insert_back h [] e s d out nz = (
  nz,
  ap (λ (n : Links). n.prev) (linked_self h e 0 0),
  ap (λ (n : Links). n.next) (linked_self h e 0 0),
  tt,
)
Seg-insert_back h (x ∷ xs) e s d out nz =
    let last = last_or x xs in
    let g = linked h e 0 last in
    let own : set_next g last e e ≡ record { next = 0; prev = last } =
      set_next_other g last e e (not-last e x xs out) ∙ linked_self h e 0 last in
    subst (λ k. Seg k 0 (x ∷ xs ++ e ∷ []) 0)
      (sym (relink_next_at g last e (last-ne-zero h 0 x xs 0 s)))
      (Seg-append (set_next g last e) 0 (x ∷ xs) (e ∷ []) 0
        (set_next-Seg g 0 x xs 0 e d
          (frame h g 0 (x ∷ xs) 0 (linked-Same h e 0 last (x ∷ xs) out) s))
        (nz, ap (λ (n : Links). n.prev) own, ap (λ (n : Links). n.next) own, tt))

Seg-insert_front :
    (h : Heap) (xs : List ℕ) (e : ℕ)
    → Seg h 0 xs 0
    → Distinct xs
    → mem e xs ≡ false
    → e ≢ 0
    → Seg (relink_prev (linked h e (head_or 0 xs) 0) (head_or 0 xs) e) 0 (e ∷ xs) 0
unfolding relink_prev
Seg-insert_front h [] e s d out nz = (
  nz,
  ap (λ (n : Links). n.prev) (linked_self h e 0 0),
  ap (λ (n : Links). n.next) (linked_self h e 0 0),
  tt,
)
Seg-insert_front h (x ∷ xs) e s d out nz =
    let g = linked h e x 0 in
    let own : set_prev g x e e ≡ record { next = x; prev = 0 } =
      set_prev_other g x e e (ground arith) ∙ linked_self h e x 0 in
    subst (λ k. Seg k 0 (e ∷ x ∷ xs) 0) (sym (relink_prev_at g x e s.0))
      (
        nz,
        ap (λ (n : Links). n.prev) own,
        ap (λ (n : Links). n.next) own,
        set_prev-Seg g 0 x xs 0 e d (frame h g 0 (x ∷ xs) 0 (linked-Same h e x 0 (x ∷ xs) out) s),
      )

pub mem-append : (a : ℕ) (xs ys : List ℕ) → mem a (xs ++ ys) ≡ (mem a xs || mem a ys)
mem-append a [] ys = refl
mem-append a (x ∷ xs) ys = ground (arith, mem-append a xs ys)

Distinct-snoc : (xs : List ℕ) (e : ℕ) → Distinct xs → mem e xs ≡ false → Distinct (xs ++ e ∷ [])
Distinct-snoc [] e d out = (refl, tt)
Distinct-snoc (x ∷ xs) e (o, d) out = (
  rw (mem-append x xs (e ∷ [])) (ground (arith, out)),
  Distinct-snoc xs e d (ground (arith, out)),
)

last_or-snoc : (d : ℕ) (xs : List ℕ) (e : ℕ) → last_or d (xs ++ e ∷ []) ≡ e
last_or-snoc d [] e = refl
last_or-snoc d (x ∷ xs) e = last_or-snoc x xs e

first-snoc :
    (h : Heap) (p : ℕ) (xs : List ℕ) (q e : ℕ)
    → Seg h p xs q
    → (if head_or 0 xs == 0 then e else head_or 0 xs) ≡ head_or 0 (xs ++ e ∷ [])
first-snoc h p [] q e s = refl
first-snoc h p (x ∷ xs) q e s = ground (arith, s.0)

last-cons :
    (h : Heap) (p : ℕ) (xs : List ℕ) (q e : ℕ)
    → Seg h p xs q
    → (if last_or 0 xs == 0 then e else last_or 0 xs) ≡ last_or e xs
last-cons h p [] q e s = refl
last-cons h p (x ∷ xs) q e s = ground (arith, last-ne-zero h p x xs q s)

insert_back-SameOutside :
    (h : Heap) (xs : List ℕ) (e : ℕ)
    → SameOutside h (relink_next (linked h e 0 (last_or 0 xs)) (last_or 0 xs) e) (e ∷ xs)
unfolding relink_next
insert_back-SameOutside h [] e a out = linked_other h e 0 0 a (ground arith)
insert_back-SameOutside h (x ∷ xs) e a out =
    let other : a ≢ last_or x xs = not-last a x xs (ground arith) in
    ground (
      arith,
      set_next_other (linked h e 0 (last_or x xs)) (last_or x xs) e a other,
      linked_other h e 0 (last_or x xs) a,
    )

insert_front-SameOutside :
    (h : Heap) (xs : List ℕ) (e : ℕ)
    → SameOutside h (relink_prev (linked h e (head_or 0 xs) 0) (head_or 0 xs) e) (e ∷ xs)
unfolding relink_prev
insert_front-SameOutside h [] e a out = linked_other h e 0 0 a (ground arith)
insert_front-SameOutside h (x ∷ xs) e a out =
    ground (arith, set_prev_other (linked h e x 0) x e a, linked_other h e x 0 a)

-- On a list that stands for the entries `xs` and whose lock is free, `list_insertBack` of an entry that
-- is not `NULL` and not among them returns; the list then stands for `xs` followed by the entry, and no
-- links change but those of the entries.
pub insert_back_lem :
    {h : Heap} {l : LinkedList} {xs : List ℕ} (e : ℕ)
    → Represents h l xs
    → e ≢ 0
    → mem e xs ≡ false
    → Gives
        (λ l' h'. Represents h' l' (xs ++ e ∷ []) × SameOutside h h' (e ∷ xs))
        (insert_back l e h)
unfolding insert_back
insert_back_lem {h} {l} {xs} e is nz out = rw is.unlocked (
  record {
    seg = rw is.last (Seg-insert_back h xs e is.seg is.distinct out nz);
    distinct = Distinct-snoc xs e is.distinct out;
    first = rw is.first (first-snoc h 0 xs 0 e is.seg);
    last = sym (last_or-snoc 0 xs e);
    count = omega (arith, is.count, length-append xs (e ∷ []));
    unlocked = refl;
  },
  rw is.last (insert_back-SameOutside h xs e),
)

-- On a list that stands for the entries `xs` and whose lock is free, `list_insertFront` of an entry that
-- is not `NULL` and not among them returns; the list then stands for the entry followed by `xs`, and no
-- links change but those of the entries.
pub insert_front_lem :
    {h : Heap} {l : LinkedList} {xs : List ℕ} (e : ℕ)
    → Represents h l xs
    → e ≢ 0
    → mem e xs ≡ false
    → Gives (λ l' h'. Represents h' l' (e ∷ xs) × SameOutside h h' (e ∷ xs)) (insert_front l e h)
unfolding insert_front
insert_front_lem {h} {l} {xs} e is nz out = rw is.unlocked (
  record {
    seg =
        subst (λ f. Seg (relink_prev (linked h e f 0) f e) 0 (e ∷ xs) 0) (sym is.first)
          (Seg-insert_front h xs e is.seg is.distinct out nz);
    distinct = (out, is.distinct);
    first = refl;
    last = rw is.last (last-cons h 0 xs 0 e is.seg);
    count = omega (arith, is.count);
    unlocked = refl;
  },
  rw is.first (insert_front-SameOutside h xs e),
)
