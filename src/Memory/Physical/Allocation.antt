-- ===== src/Memory/Physical/Allocation.antt =====
-- `pm_allocLimit`, `pm_alloc` and `pm_free`: who owns which page.
use firedrake.Common.{
  ℕ, suc, ◌+◌, ◌-◌, ◌*◌, ◌/◌, ◌<◌, ◌≤◌, ◌≡◌, ◌≢◌, refl, sym, ap, ◌∙◌, ◌⊎◌, inl, inr, true, false,
  arith, Bool-cases, Option, none, some, ltb, ◌==◌, if◌then◌else◌, word, ℕ_discrete, mul32,
}
use mathlib.Core.Path.{subst}
use firedrake.Memory.Physical.{
  Bitmap, Physical, page_size, heap_size, find_free_pages, mark_used_range, mark_free_range,
  alloc_limit, free, search_words, search_word, hit,
}
use firedrake.Memory.Physical.Bitmaps.{
  page_count, is_free, in_range, is_free-mark_used_range, is_free-mark_free_range,
}
use firedrake.Memory.Physical.Runs.{Found, NoRun}
use firedrake.Memory.Physical.Find.{first_page, find_free_pages-Result}

-- The call returns, and what it returns has the property.
abbrev pub Returns : (ℕ → Physical → Type 0) → Option (ℕ × Physical) → Type 0
Returns P none = ⊥
Returns P (some (page, m)) = P page m

-- The `pages` pages from the address `page` on were free, and now are used; no other page changes.
pub record Allocated (h : Bitmap) (lower_limit pages page : ℕ) (h' : Bitmap) : Type 0 where
  pub first : ℕ
  pub address : page ≡ first * page_size
  pub low : first_page lower_limit ≤ first
  pub high : first + pages < page_count
  pub were_free : (p : ℕ) → in_range first pages p ≡ true → is_free h p ≡ true
  pub are_used : (p : ℕ) → is_free h' p ≡ (if in_range first pages p then false else is_free h p)

abbrev pub AllocatedOrNone : Physical → ℕ → ℕ → ℕ → Physical → Type 0
AllocatedOrNone m lower_limit pages page m' =
    (m'.locked ≡ false)
    × (Allocated m.heap lower_limit pages page m'.heap
        ⊎ ((page ≡ 0) × ((p : ℕ) → is_free m'.heap p ≡ is_free m.heap p)))

allocated :
    (h : Bitmap) (lower_limit pages page : ℕ)
    → Found h (first_page lower_limit) pages page
    → Allocated h lower_limit pages page (mark_used_range h page pages)
allocated h lower_limit pages page f = record {
  first = f.first;
  address = f.address;
  low = f.low;
  high = f.high;
  were_free = λ p i.
      let inside : (f.first ≤ p) × (p < f.first + pages) = ground arith in
      subst (λ z. is_free h z ≡ true) (let z : f.first + (p - f.first) ≡ p = omega arith in z)
        (f.all_free (p - f.first) (omega arith));
  are_used = λ p. rw f.address (is_free-mark_used_range h f.first pages p f.high);
}

-- Where nobody holds the lock, `pm_allocLimit` returns and leaves it free. Either it returns the
-- address of `pages` pages that were free and now are used, and no other page changes; or it
-- returns 0 and changes none.
pub alloc_limit_lem :
    (m : Physical) (lower_limit pages : ℕ)
    → m.locked ≡ false
    → lower_limit < word
    → Returns (AllocatedOrNone m lower_limit pages) (alloc_limit m lower_limit pages)
unfolding alloc_limit
alloc_limit_lem m lower_limit pages open_lock lt =
    let page = find_free_pages m.heap lower_limit pages in
    rw open_lock (elim (ℕ_discrete page 0) [
      | yes z ↦ let test : (page == 0) ≡ true = ground arith in rw test (refl, inr (z, λ p. refl))
      | no nz ↦
          let test : (page == 0) ≡ false = ground arith in
          rw test (
            refl,
            elim (find_free_pages-Result m.heap lower_limit pages lt) [
              | inl f ↦ inl (allocated m.heap lower_limit pages page f)
              | inr (z, _) ↦ absurd (nz z)
            ],
          )
    ])

-- With page 0 in use and the lock free, `pm_allocLimit` returns 0 only if no `pages + 1` pages in a row are free from
-- the limit (rounded down to 32 pages) on.
alloc_limit-zero :
    (m : Physical) (lower_limit pages : ℕ)
    → m.locked ≡ false
    → lower_limit < word
    → is_free m.heap 0 ≡ false
    → Returns
        (λ page m'. page ≡ 0 → NoRun m.heap (first_page lower_limit) pages page_count)
        (alloc_limit m lower_limit pages)
unfolding alloc_limit
alloc_limit-zero m lower_limit pages open_lock lt null_used = rw open_lock (λ z.
    elim (find_free_pages-Result m.heap lower_limit pages lt) [
      | inl f ↦
          let first : f.first + 0 ≡ 0 = omega (arith, f.address) in
          let free_null = subst (λ k. is_free m.heap k ≡ true) first (f.all_free 0 (omega arith)) in
          cc
      | inr (_, none_free) ↦ none_free
    ])

-- With the lock free, `pm_free` of pages that the bitmap covers returns, leaves the lock free, and marks
-- exactly the `pages` pages from `first` on as free.
free_lem :
    (m : Physical) (first pages : ℕ)
    → m.locked ≡ false
    → first + pages < page_count
    → (m' : Physical) × (free m (first * page_size) pages ≡ some m')
      × (m'.locked ≡ false)
      × ((p : ℕ) → is_free m'.heap p ≡ (if in_range first pages p then true else is_free m.heap p))
unfolding free
free_lem m first pages open_lock lt = (
  record { heap = mark_free_range m.heap (first * page_size) pages; locked = false },
  rw open_lock refl,
  refl,
  λ p. is_free-mark_free_range m.heap first pages p lt,
)

-- A call that returns found the lock free; one that returns a page allocated it.
unlocked :
    (m : Physical) (lower pages page : ℕ) (m' : Physical)
    → alloc_limit m lower pages ≡ some (page, m')
    → m.locked ≡ false
unfolding alloc_limit
unlocked m lower pages page m' e = ground arith

returned :
    (m m' : Physical) (lower pages page : ℕ)
    → lower < word
    → alloc_limit m lower pages ≡ some (page, m')
    → page ≢ 0
    → (m'.locked ≡ false) × Allocated m.heap lower pages page m'.heap
returned m m' lower pages page lt e nz =
    let (open_lock, got) =
      subst (Returns (AllocatedOrNone m lower pages)) e
        (alloc_limit_lem m lower pages (unlocked m lower pages page m' e) lt) in
    (open_lock, elim got [ inl a ↦ a | inr (z, _) ↦ absurd (nz z) ])

-- Giving back what `pm_allocLimit` returned, if that is not the 0 of a failed call, succeeds, and makes
-- every page what it was before. The lower limit is a 32-bit number.
pub free-alloc_limit :
    (m m' : Physical) (lower pages page : ℕ)
    → lower < word
    → alloc_limit m lower pages ≡ some (page, m')
    → page ≢ 0
    → (m'' : Physical) × (free m' page pages ≡ some m'')
      × ((p : ℕ) → is_free m''.heap p ≡ is_free m.heap p)
free-alloc_limit m m' lower pages page lt e nz =
    let (open_lock, a) = returned m m' lower pages page lt e nz in
    let (m'', gives, _, freed) = free_lem m' a.first pages open_lock a.high in
    (
      m'',
      rw a.address gives,
      λ p. elim (Bool-cases (in_range a.first pages p)) [
        | inl i ↦
            freed p ∙ ap (λ b. if b then true else is_free m'.heap p) i ∙ sym (a.were_free p i)
        | inr o ↦
            freed p
            ∙ ap (λ b. if b then true else is_free m'.heap p) o
            ∙ a.are_used p
            ∙ ap (λ b. if b then false else is_free m.heap p) o
      ],
    )

-- Two calls of `pm_allocLimit` in a row that return pages return pages that differ.
allocations_disjoint :
    (m m' m'' : Physical) (lower lower' pages pages' page page' : ℕ)
    → lower < word
    → lower' < word
    → alloc_limit m lower pages ≡ some (page, m')
    → alloc_limit m' lower' pages' ≡ some (page', m'')
    → page ≢ 0
    → page' ≢ 0
    → (p : ℕ) → in_range (page / page_size) pages p ≡ true
    → in_range (page' / page_size) pages' p ≡ false
allocations_disjoint m m' m'' lower lower' pages pages' page page' lt lt' e e' nz nz' p i =
    let (_, a) = returned m m' lower pages page lt e nz in
    let (_, b) = returned m' m'' lower' pages' page' lt' e' nz' in
    let at : page / page_size ≡ a.first = omega (arith, a.address) in
    let at' : page' / page_size ≡ b.first = omega (arith, b.address) in
    let i' : in_range a.first pages p ≡ true = subst (λ f. in_range f pages p ≡ true) at i in
    rw at' (elim (Bool-cases (in_range b.first pages' p)) [
      | inl j ↦
          let used = a.are_used p ∙ ap (λ t. if t then false else is_free m.heap p) i' in
          let unused = b.were_free p j in cc
      | inr o ↦ o
    ])

search_word-full :
    (h : Bitmap) (i pages : ℕ)
    → i < heap_size
    → pages < 32
    → h i ≡ 0xFFFFFFFF
    → search_word h i pages 0 0 ≡ hit (i * 32 * page_size)
unfolding search_word
search_word-full h i pages hi hp full =
    let enough : ltb pages 32 ≡ true = ground arith in
    let address : mul32 (mul32 i 32) page_size ≡ i * 32 * page_size = omega arith in
    rw (full, enough, address) refl

search_words-hit :
    (rounds : ℕ) (h : Bitmap) (i pages p : ℕ)
    → search_word h i pages 0 0 ≡ hit p
    → search_words (suc rounds) h i pages 0 0 ≡ p
unfolding search_words
search_words-hit rounds h i pages p e = rw (e, search_words) refl

find_free_pages-full :
    (h : Bitmap) (i k pages : ℕ)
    → i < heap_size
    → k < 32
    → pages < 32
    → h i ≡ 0xFFFFFFFF
    → find_free_pages h ((i * 32 + k) * page_size) pages ≡ i * 32 * page_size
unfolding find_free_pages
find_free_pages-full h i k pages hi hk hp full =
    let word_index : (i * 32 + k) * page_size / page_size / 32 ≡ i = omega arith in
    let rounds : heap_size - i ≡ suc (heap_size - i - 1) = omega arith in
    rw (word_index, rounds)
      (search_words-hit (heap_size - i - 1) h i pages (i * 32 * page_size)
        (search_word-full h i pages hi hp full))

-- With the lock free, `pm_allocLimit` of fewer than 32 pages with a limit inside, not at the start of, a
-- bitmap word whose 32 pages are all free returns the word's first page, which is below the limit.
pub alloc_limit-below :
    (m : Physical) (i k pages : ℕ)
    → m.locked ≡ false
    → i < heap_size
    → 0 < k
    → k < 32
    → pages < 32
    → m.heap i ≡ 0xFFFFFFFF
    → Returns
        (λ page m'. (page ≡ i * 32 * page_size) × (page < (i * 32 + k) * page_size))
        (alloc_limit m ((i * 32 + k) * page_size) pages)
unfolding alloc_limit
alloc_limit-below m i k pages open_lock hi k_pos hk hp full =
    let found = find_free_pages-full m.heap i k pages hi hk hp full in
    rw open_lock (found, omega (arith, found))
