-- ===== src/Memory/Physical/Runs.antt =====
-- Runs of free pages, as the search of `__pm_findFreePages` keeps track of them.
use firedrake.Common.{
  ℕ, ◌+◌, ◌-◌, ◌*◌, ◌<◌, ◌≤◌, ◌≡◌, refl, dec_lt, ◌⊎◌, inl, inr, Bool, true, false, arith,
  Bool-cases, ltb,
}
use mathlib.Core.Path.{subst}
use firedrake.Memory.Physical.{Bitmap, page_size, Search, hit, go, run_start, check_run}
use firedrake.Memory.Physical.Bitmaps.{page_count, is_free}

module _ (h : Bitmap) (lo pages : ℕ) where
  moved : {v : Bool} (a b : ℕ) → a ≡ b → is_free h a ≡ v → is_free h b ≡ v
  moved {v} a b e = subst (λ z. is_free h z ≡ v) e

  -- The pages below `k` have been looked at, from `lo` on; the last `found` of them are free, and
  -- no more than those.
  pub record Run (k found page : ℕ) : Type 0 where
    pub within : lo + found ≤ k
    pub start : (found ≡ 0) ⊎ (page ≡ (k - found) * page_size)
    pub all_free : (q : ℕ) → q < found → is_free h (k - found + q) ≡ true
    pub maximal : (lo + found ≡ k) ⊎ (is_free h (k - found - 1) ≡ false)

  -- Any `pages + 1` pages in a row between `lo` and `k` have a used one among them.
  abbrev pub NoRun : ℕ → Type 0
  NoRun k = (s : ℕ) → lo ≤ s → s + pages < k → (q : ℕ) × (q ≤ pages) × (is_free h (s + q) ≡ false)

  -- `page` is the address of the first of `pages + 1` free pages in a row, not below `lo`.
  pub record Found (page : ℕ) : Type 0 where
    pub first : ℕ
    pub address : page ≡ first * page_size
    pub low : lo ≤ first
    pub high : first + pages < page_count
    pub all_free : (q : ℕ) → q ≤ pages → is_free h (first + q) ≡ true

  abbrev pub Good : ℕ → Search → Type 0
  Good k (hit page) = Found page
  Good k (go found page) = Run k found page × (found ≤ pages) × NoRun k

  pub Run-extend :
      {k found page : ℕ} (n : ℕ)
      → Run k found page
      → ((q : ℕ) → q < n → is_free h (k + q) ≡ true)
      → 0 < n
      → Run (k + n) (found + n) (run_start found page (k * page_size))
  Run-extend {k} {found} {page} n r free pos = record {
    within = omega (arith, r.within);
    start = inr ground (arith, r.start);
    all_free = λ q lt. elim (dec_lt q found) [
      | yes old ↦
          moved (k - found + q) (k + n - (found + n) + q) (omega (arith, r.within))
            (r.all_free q old)
      | no new ↦
          moved (k + (q - found)) (k + n - (found + n) + q) (omega (arith, r.within))
            (free (q - found) (omega arith))
    ];
    maximal = elim r.maximal [
      | inl e ↦ inl (omega arith)
      | inr u ↦ inr (moved (k - found - 1) (k + n - (found + n) - 1) (omega arith) u)
    ];
  }

  pub Run-break :
      {k found page : ℕ} (n : ℕ)
      → Run k found page
      → ((q : ℕ) → q < n → is_free h (k + q) ≡ false)
      → 0 < n
      → Run (k + n) 0 page
  Run-break {k} n r used pos = record {
    within = omega (arith, r.within);
    start = inl refl;
    all_free = λ q lt. absurd (omega arith);
    maximal = inr (moved (k + (n - 1)) (k + n - 0 - 1) (omega arith) (used (n - 1) (omega arith)));
  }

  pub NoRun-extend :
      {k k' found page : ℕ}
      → NoRun k
      → Run k' found page
      → found ≤ pages
      → k' ≤ k + 1 + found
      → NoRun k'
  NoRun-extend {k} {k'} {found} none r le near s low lt = elim (dec_lt (s + pages) k) [
    | yes p ↦ none s low p
    | no p ↦ elim r.maximal [
      | inl e ↦ absurd (omega arith)
      | inr u ↦ (
        k' - found - 1 - s,
        omega arith,
        moved (k' - found - 1) (s + (k' - found - 1 - s)) (omega arith) u,
      )
    ]
  ]

  pub NoRun-break :
      {k : ℕ} (n : ℕ) → NoRun k → ((q : ℕ) → q < n → is_free h (k + q) ≡ false) → NoRun (k + n)
  NoRun-break {k} n none used s low lt = elim (dec_lt (s + pages) k) [
    | yes p ↦ none s low p
    | no p ↦ (
      pages,
      omega arith,
      moved (k + (s + pages - k)) (s + pages) (omega arith) (used (s + pages - k) (omega arith)),
    )
  ]

  pub check_run-Good :
      {k found page : ℕ}
      → Run k found page
      → k ≤ page_count
      → (found ≤ pages → NoRun k)
      → Good k (check_run pages found page)
  check_run-Good {k} {found} {page} r le none = elim (Bool-cases (ltb pages found)) [
    | inl more ↦
        let many : pages < found = ground arith in
        rw more (record {
          first = k - found;
          address = omega (arith, r.start);
          low = omega (arith, r.within);
          high = omega (arith, r.within);
          all_free = λ q lt. r.all_free q (omega arith);
        })
    | inr less ↦ rw less (r, ground arith, none (ground arith))
  ]
