-- ===== src/Memory/Physical/Find.antt =====
-- `__pm_findFreePages`: what it finds is free, and what it does not find is not there.
use firedrake.Common.{
  ℕ, zero, suc, ◌+◌, ◌-◌, ◌*◌, ◌/◌, ◌<◌, ◌≤◌, ◌≡◌, refl, ap, ap₂, ◌∙◌, ◌⊎◌, inl, inr, Bool, true,
  false, arith, Bool-cases, ◌==◌, if◌then◌else◌, add32, mul32, word, ℕ_discrete,
}
use mathlib.Core.Path.{subst}
use firedrake.Common.Bits.{test_bit, test_bit-zero, test_bit-ones}
use firedrake.Memory.Physical.{
  Bitmap, page_size, heap_size, Search, hit, go, run_start, check_run, search_bits, search_word,
  search_words, find_free_pages,
}
use firedrake.Memory.Physical.Bitmaps.{page_count, is_free}
use firedrake.Memory.Physical.Runs.{
  NoRun, Found, Good, Run-extend, Run-break, NoRun-extend, NoRun-break, check_run-Good,
}

module _ (h : Bitmap) (lo pages : ℕ) where
  -- A round that goes on is followed by the next.
  then_Good :
      (k k' : ℕ) (o : Search) (next : ℕ → ℕ → Search)
      → Good h lo pages k o
      → ((f p : ℕ) → Good h lo pages k (go f p) → Good h lo pages k' (next f p))
      → Good h lo pages k' (elim o [ hit p ↦ hit p | go f p ↦ next f p ])
  then_Good k k' (hit p) next g more = g
  then_Good k k' (go f p) next g more = more f p g

  word_bit : (i j : ℕ) → j < 32 → is_free h (i * 32 + j) ≡ test_bit (h i) j
  word_bit i j lt = ap₂ (λ a b. test_bit (h a) b) (omega arith) (omega arith)

  one : (k : ℕ) {v : Bool} → is_free h k ≡ v → (q : ℕ) → q < 1 → is_free h (k + q) ≡ v
  one k {v} e q lt = subst (λ z. is_free h z ≡ v) (let z : k ≡ k + q = omega arith in z) e

  -- bit `j` of word `i`
  search_bit-Good :
      (i j : ℕ) {found page : ℕ}
      → i < heap_size
      → j < 32
      → Good h lo pages (i * 32 + j) (go found page)
      → lo ≤ i * 32 + j
      → Good h lo pages (i * 32 + j + 1) (
          if test_bit (h i) j
          then check_run pages
              (add32 found 1)
              (run_start found page (mul32 (add32 (mul32 i 32) j) page_size))
          else go 0 page)
  search_bit-Good i j {found} {page} hi hj (r, le, none) low =
      let k = i * 32 + j in
      let here : mul32 (add32 (mul32 i 32) j) page_size ≡ (i * 32 + j) * page_size = omega arith in
      let count : add32 found 1 ≡ found + 1 = omega (arith, r.within) in
      elim (Bool-cases (test_bit (h i) j)) [
        | inl is ↦
            rw (is, here, count)
              (let r' = Run-extend h lo pages 1 r (one k (word_bit i j hj ∙ is)) (omega arith) in
                check_run-Good h lo pages r' (omega arith)
                  (λ le'. NoRun-extend h lo pages none r' le' (omega arith)))
        | inr not ↦ rw not (
            let used = one k (word_bit i j hj ∙ not) in
            (
              Run-break h lo pages 1 r used (omega arith),
              omega arith,
              NoRun-break h lo pages 1 none used,
            ))
      ]

  search_bits-Good :
      (rounds i j found page : ℕ)
      → j + rounds ≡ 32
      → i < heap_size
      → lo ≤ i * 32 + j
      → Good h lo pages (i * 32 + j) (go found page)
      → Good h lo pages (i * 32 + 32) (search_bits rounds (h i) i pages j found page)
  unfolding search_bits
  search_bits-Good zero i j found page e hi low g =
      subst (λ z. Good h lo pages z (go found page))
        (let z : i * 32 + j ≡ i * 32 + 32 = omega arith in z) g
  search_bits-Good (suc rounds) i j found page e hi low g =
      then_Good (i * 32 + j + 1) (i * 32 + 32) _
        (λ f p. search_bits rounds (h i) i pages (j + 1) f p)
        (search_bit-Good i j hi (omega arith) g low)
        λ f p g'. search_bits-Good rounds i (j + 1) f p (omega arith) hi (omega arith) (
          subst (λ z. Good h lo pages z (go f p))
            (let z : i * 32 + j + 1 ≡ i * 32 + (j + 1) = omega arith in z) g')

  word_used : (i : ℕ) → h i ≡ 0 → (q : ℕ) → q < 32 → is_free h (i * 32 + q) ≡ false
  word_used i e q lt = word_bit i q lt ∙ ap (λ w. test_bit w q) e ∙ test_bit-zero q

  word_free : (i : ℕ) → h i ≡ 0xFFFFFFFF → (q : ℕ) → q < 32 → is_free h (i * 32 + q) ≡ true
  word_free i e q lt =
      word_bit i q lt ∙ ap (λ w. test_bit w q) e ∙ test_bit-ones 32 0xFFFFFFFF q refl lt

  search_word-Good :
      (i : ℕ) {found page : ℕ}
      → i < heap_size
      → Good h lo pages (i * 32) (go found page)
      → Good h lo pages (i * 32 + 32) (search_word h i pages found page)
  unfolding search_word
  search_word-Good i {found} {page} hi (r, le, none) = elim (ℕ_discrete (h i) 0) [
    | yes empty ↦ rw empty (
      Run-break h lo pages 32 r (word_used i empty) (omega arith),
      omega arith,
      NoRun-break h lo pages 32 none (word_used i empty),
    )
    | no some_free ↦ elim (ℕ_discrete (h i) 0xFFFFFFFF) [
      | yes full ↦
          let here : mul32 (mul32 i 32) page_size ≡ i * 32 * page_size = omega arith in
          let count : add32 found 32 ≡ found + 32 = omega (arith, r.within) in
          let r' = Run-extend h lo pages 32 r (word_free i full) (omega arith) in
          rw (full, here, count)
            (check_run-Good h lo pages r' (omega arith)
              (λ le'. NoRun-extend h lo pages none r' le' (omega arith)))
      | no mixed ↦
          let not_empty : (h i == 0) ≡ false = ground arith in
          let not_full : (h i == 0xFFFFFFFF) ≡ false = ground arith in
          rw (not_empty, not_full)
            (then_Good (i * 32 + 32) (i * 32 + 32) _ (λ f p. check_run pages f p)
              (search_bits-Good 32 i 0 found page refl hi (omega (arith, r.within)) (
                subst (λ z. Good h lo pages z (go found page))
                  (let z : i * 32 ≡ i * 32 + 0 = omega arith in z) (r, le, none)))
              λ f p (r', le', none'). check_run-Good h lo pages r' (omega arith) (λ _. none'))
    ]
  ]

  -- What the search gives: pages that are free, or 0 where there are none.
  abbrev pub Result : ℕ → Type 0
  Result page = Found h lo pages page ⊎ ((page ≡ 0) × NoRun h lo pages page_count)

  search_words-Result :
      (rounds i found page : ℕ)
      → i + rounds ≡ heap_size
      → Good h lo pages (i * 32) (go found page)
      → Result (search_words rounds h i pages found page)
  unfolding search_words
  search_words-Result zero i found page e (r, le, none) =
      inr (refl, subst (NoRun h lo pages) (let z : i * 32 ≡ page_count = omega arith in z) none)
  search_words-Result (suc rounds) i found page e g =
      finish (search_word h i pages found page) (search_word-Good i (omega arith) g)
        (λ f p. search_words-Result rounds (i + 1) f p (omega arith))
    where
      finish :
          (o : Search)
          → Good h lo pages (i * 32 + 32) o
          → ((f p : ℕ)
              → Good h lo pages ((i + 1) * 32) (go f p)
              → Result (search_words rounds h (i + 1) pages f p))
          → Result (elim o [ hit p ↦ p | go f p ↦ search_words rounds h (i + 1) pages f p ])
      finish (hit p) found' more = inl found'
      finish (go f p) good more = more f p (
          subst (λ z. Good h lo pages z (go f p))
            (let z : i * 32 + 32 ≡ (i + 1) * 32 = omega arith in z) good)

-- the index of the first page that the search looks at
abbrev pub first_page : ℕ → ℕ
first_page lower_limit = lower_limit / page_size / 32 * 32

-- For a limit of 32 bits, `__pm_findFreePages` returns the first of `pages + 1` free pages in a row, the first not below the
-- limit rounded down to 32 pages; or 0, and then no such pages are there.
pub find_free_pages-Result :
    (h : Bitmap) (lower_limit pages : ℕ)
    → lower_limit < word
    → Result h (first_page lower_limit) pages (find_free_pages h lower_limit pages)
unfolding find_free_pages
find_free_pages-Result h lower_limit pages lt =
    let i = lower_limit / page_size / 32 in
    search_words-Result h (i * 32) pages (heap_size - i) i 0 0 (omega arith) (
      record {
        within = omega arith;
        start = inl refl;
        all_free = λ q z. absurd (omega arith);
        maximal = inl (omega arith);
      },
      omega arith,
      λ s low bound. absurd (omega arith),
    )
