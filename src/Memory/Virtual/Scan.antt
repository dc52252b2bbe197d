-- ===== src/Memory/Virtual/Scan.antt =====
-- The scan of a directory for a run of unmapped pages. A page is named by its index.
use firedrake.Common.{
  ℕ, zero, suc, ◌+◌, ◌-◌, ◌*◌, ◌/◌, ◌%◌, ◌^◌, ◌<◌, ◌≤◌, ◌≡◌, ◌≢◌, refl, ap, ◌∙◌, ◌⊎◌, inl, inr,
  Bool, true, false, arith, dec_lt, Bool-cases, Option, none, some, ltb, leb, not, add32, mul32,
  leb→le, lt→ltb,
}
use mathlib.Core.Path.{subst}
use firedrake.Memory.Physical.{page_size}
use firedrake.Memory.Virtual.{
  table_length, is_present, address_of, region_start, scan_table, scan_entry, scan_directory,
}

abbrev pub unmapped_in : Option (ℕ → ℕ) → ℕ → Bool
unmapped_in none j = true
unmapped_in (some table) j = not (is_present (table j))

-- the page `p` is not mapped by the tables of a directory
abbrev pub is_unmapped : (ℕ → Option (ℕ → ℕ)) → ℕ → Bool
is_unmapped tables p = unmapped_in (tables (p / table_length)) (p % table_length)

le→ltb : (found pages : ℕ) → pages ≤ found → ltb found pages ≡ false
le→ltb found pages h = ground arith

module _ (tables : ℕ → Option (ℕ → ℕ)) (low : ℕ) where
  -- The `found` pages before `q`, from the address `start` on, are not mapped.
  pub record Run (q found start : ℕ) : Type 0 where
    pub first : ℕ
    pub address : start ≡ first * page_size
    pub above : low ≤ first
    pub ends : first + found ≡ q
    pub unmapped : (p : ℕ) → first ≤ p → p < q → is_unmapped tables p ≡ true

  -- nothing is found yet, or a run
  abbrev pub Progress : ℕ → ℕ × ℕ → Type 0
  Progress q (found, start) = (found ≡ 0) ⊎ Run q found start

  -- `n` more unmapped pages
  extend :
      (q found start n : ℕ)
      → low ≤ q
      → 0 < n
      → Progress q (found, start)
      → ((p : ℕ) → q ≤ p → p < q + n → is_unmapped tables p ≡ true)
      → Run (q + n) (found + n) (region_start found start (q * page_size))
  extend q zero start n le pos w free = record {
    first = q;
    address = refl;
    above = le;
    ends = omega arith;
    unmapped = free;
  }
  extend q (suc found) start n le pos (inl e) free = absurd (omega arith)
  extend q (suc found) start n le pos (inr r) free = record {
    first = r.first;
    address = ground (arith, r.address);
    above = r.above;
    ends = omega (arith, r.ends);
    unmapped = λ p a b. elim (dec_lt p q) [
      | yes old ↦ r.unmapped p a old
      | no new ↦ free p (omega arith) b
    ];
  }

  -- What a scan of a table leaves, up to the page `q`: enough pages in a row, or progress up to there.
  abbrev pub Scanned : ℕ → ℕ → ℕ × ℕ → Type 0
  Scanned q pages (found, start) =
      ((pages ≤ found) × ((q' : ℕ) × (q' ≤ q) × Run q' found start))
      ⊎ ((found < pages) × Progress q (found, start))

  unmapped-some :
      (i j : ℕ) (table : ℕ → ℕ) (p : ℕ)
      → tables i ≡ some table
      → j < table_length
      → p ≡ i * table_length + j
      → is_present (table j) ≡ false
      → is_unmapped tables p ≡ true
  unmapped-some i j table p t jb e free =
      let high : p / table_length ≡ i = omega arith in
      let low' : p % table_length ≡ j = omega arith in
      ap (λ (k : ℕ). unmapped_in (tables k) (p % table_length)) high
      ∙ ap (λ (k : ℕ). unmapped_in (tables i) k) low'
      ∙ ap (λ (o : Option (ℕ → ℕ)). unmapped_in o j) t
      ∙ ap not free

  scan_table-Scanned :
      (rounds : ℕ) (table : ℕ → ℕ) (pages i j found start : ℕ)
      → tables i ≡ some table
      → i < table_length
      → j + rounds ≡ table_length
      → pages < 2 ^ 20
      → found < pages
      → low ≤ i * table_length + j
      → Progress (i * table_length + j) (found, start)
      → Scanned (suc i * table_length) pages (scan_table rounds table pages i j found start)
  unfolding scan_table
  scan_table-Scanned zero table pages i j found start t ib jb small more le w =
      inr (more, subst (λ q. Progress q (found, start)) (omega arith) w)
  scan_table-Scanned (suc rounds) table pages i j found start t ib jb small more le w =
      let q = i * table_length + j in
      let here : address_of i j ≡ q * page_size = omega arith in
      let next : q + 1 ≡ i * table_length + (j + 1) = omega arith in
      let one : add32 found 1 ≡ found + 1 = omega arith in
      let deeper =
        λ (found' : ℕ) (start' : ℕ) (more' : found' < pages)
            (w' : Progress (i * table_length + (j + 1)) (found', start')).
          scan_table-Scanned rounds table pages i (j + 1) found' start' t ib (omega arith) small
            more' (omega arith) w' in
      rw (here, one)
        (elim (Bool-cases (is_present (table j))) [
          | inl used ↦ rw used (deeper 0 start (omega arith) (inl refl))
          | inr free ↦
              let r =
                extend q found start 1 le (omega arith) w
                  (λ p a b. unmapped-some i j table p t (omega arith) (omega arith) free) in
              rw free (elim (Bool-cases (leb pages (found + 1))) [
                | inl enough ↦ rw enough (inl (leb→le _ _ enough, (q + 1, omega arith, r)))
                | inr fewer ↦ rw fewer (
                    deeper (found + 1) (region_start found start (q * page_size)) (ground arith) (
                      subst
                        (λ q'. Progress q' (found + 1, region_start found start (q * page_size)))
                        next (inr r)))
              ])
        ])

  -- a directory's search ends with enough unmapped pages, or too few
  abbrev pub Searched : ℕ → ℕ × ℕ → Type 0
  Searched pages (found, start) =
      ((pages ≤ found) × ((q : ℕ) × (q ≤ 2 ^ 20) × Run q found start)) ⊎ (found < pages)

  scan_entry-Scanned :
      (entry : Option (ℕ → ℕ)) (pages i j found start : ℕ)
      → tables i ≡ entry
      → (j ≡ 0) ⊎ (entry ≢ none)
      → i < table_length
      → j < table_length
      → pages < 2 ^ 20
      → found < pages
      → low ≤ i * table_length + j
      → Progress (i * table_length + j) (found, start)
      → Scanned (suc i * table_length) pages (scan_entry entry pages i j found start)
  unfolding scan_entry
  scan_entry-Scanned (some table) pages i j found start t whole ib jb small more le w =
      scan_table-Scanned (table_length - j) table pages i j found start t ib (omega arith) small
        more le w
  scan_entry-Scanned none pages i j found start t (inr absent) ib jb small more le w =
      absurd (absent refl)
  scan_entry-Scanned none pages i j found start t (inl e) ib jb small more le w =
      let q = i * table_length + j in
      let here : address_of i j ≡ q * page_size = omega arith in
      let many : add32 found table_length ≡ found + table_length = omega arith in
      let next : q + table_length ≡ suc i * table_length = omega arith in
      let r = extend q found start table_length le (omega arith) w (λ p a b.
        let high : p / table_length ≡ i = omega arith in
        ap (λ (k : ℕ). unmapped_in (tables k) (p % table_length)) high
        ∙ ap (λ (o : Option (ℕ → ℕ)). unmapped_in o (p % table_length)) t) in
      rw (here, many)
        (elim (dec_lt (found + table_length) pages) [
          | yes fewer ↦ inr (
            fewer,
            inr (
                subst (λ k. Run k (found + table_length) (region_start found start (q * page_size)))
                  next r),
          )
          | no enough ↦ inl (omega arith, (q + table_length, omega arith, r))
        ])

  pub scan_directory-Searched :
      (rounds pages upper i j found start : ℕ)
      → (j ≡ 0) ⊎ (tables i ≢ none)
      → i + rounds ≡ suc table_length
      → j < table_length
      → 0 < pages
      → pages < 2 ^ 20
      → low ≤ i * table_length + j
      → i * table_length + j ≤ 2 ^ 20
      → Scanned (i * table_length + j) pages (found, start)
      → Searched pages (scan_directory rounds tables pages upper i j found start)
  unfolding scan_directory
  scan_directory-Searched zero pages upper i j found start whole ib jb pos small le end (inr more) =
      inr more.0
  scan_directory-Searched zero pages upper i j found start whole ib jb pos small le end
        (inl enough) =
      absurd (omega arith)
  scan_directory-Searched (suc rounds) pages upper i j found start whole ib jb pos small le end
        (inl (enough, (q, qb, r))) =
      rw (le→ltb found pages enough) (inl (enough, (q, omega arith, r)))
  scan_directory-Searched (suc rounds) pages upper i j found start whole ib jb pos small le end
        (inr (more, w)) =
      rw (lt→ltb found pages more) (elim (Bool-cases (ltb (mul32 i (2 ^ 22)) upper)) [
        | inr past ↦ rw past (inr more)
        | inl inside ↦ elim (Bool-cases (leb table_length i)) [
          | inl last ↦ rw (inside, last) (inr pos)
          | inr table ↦
              rw (inside, table)
                (let ib' : i < table_length = ground arith in
                  let next = scan_entry (tables i) pages i j found start in
                  scan_directory-Searched rounds pages upper (i + 1) 0 next.0 next.1 (inl refl)
                    (omega arith) (omega arith) pos small (omega arith) (omega arith)
                    (subst (λ q. Scanned q pages next) (omega arith)
                      (scan_entry-Scanned (tables i) pages i j found start refl whole ib' jb small
                        more le w)))
        ]
      ])
