-- ===== src/Memory/Dma/Collect.antt =====
-- The loop of `dma_request` that collects fragments.
use firedrake.Common.{
  ℕ, zero, suc, ◌+◌, ◌<◌, ◌≡◌, ◌≢◌, refl, sym, ap, ◌∙◌, ◌⊎◌, inl, inr, true, false, none, some,
  some_inj, List, [], ◌∷◌, ◌++◌, arith, ltb, ◌&&◌, ◌==◌, if◌then◌else◌, length, length-append,
  lt→ltb, Bool-cases, Option-cases, ℕ_discrete,
}
use mathlib.Core.Path.{subst}
use firedrake.Memory.Physical as Pages
use firedrake.Memory.Physical.{Physical}
use firedrake.Memory.Virtual.{Machine}
use firedrake.Memory.Dma.{collect, max_fragments, fragments_for}

-- Every fragment has `pages` pages.
abbrev pub AllHave : ℕ → List (ℕ × ℕ) → Type 0
AllHave pages [] = Unit {0}
AllHave pages ((fragment, n) ∷ rest) = (n ≡ pages) × AllHave pages rest

AllHave-append :
    (pages fragment : ℕ) (fs : List (ℕ × ℕ))
    → AllHave pages fs
    → AllHave pages (fs ++ (fragment, pages) ∷ [])
AllHave-append pages fragment [] h = (refl, tt)
AllHave-append pages fragment (f ∷ fs) h = (h.0, AllHave-append pages fragment fs h.1)

-- An allocation that finds nothing finds nothing again.
alloc-again :
    (p p' : Physical) (pages : ℕ)
    → Pages.alloc p pages ≡ some (0, p')
    → Pages.alloc p' pages ≡ some (0, p')
unfolding Pages.alloc Pages.alloc_limit
alloc-again p p' pages h =
    let kept : Physical = record { heap = p.heap; locked = false } in
    elim (Bool-cases p.locked) [
      | inl held ↦
          let e : Pages.alloc p pages ≡ none = rw held in
          absurd (let l : none ≡ some (0, p') = sym e ∙ h in cc)
      | inr open' ↦
          let page = Pages.find_free_pages p.heap 0 pages in
          let after : Physical = record {
            heap = if page == 0 then p.heap else Pages.mark_used_range p.heap page pages;
            locked = false;
          } in
          let e : Pages.alloc p pages ≡ some (page, after) = rw open' in
          let same : (page, after) ≡ (0, p') = some_inj (sym e ∙ h) in
          let nothing : page ≡ 0 = ap (λ (r : ℕ × Physical). r.0) same in
          let to : after ≡ kept = rw nothing in
          let is_kept : p' ≡ kept = sym (ap (λ (r : ℕ × Physical). r.1) same) ∙ to in
          let again : Pages.alloc kept pages ≡ some (0, kept) = rw nothing in
          subst (λ (k : Physical). Pages.alloc k pages ≡ some (0, k)) (sym is_kept) again
    ]

collect-zero : (m : Machine) (pages i : ℕ) (fs : List (ℕ × ℕ)) → collect 0 m pages i fs ≡ none
unfolding collect
collect-zero m pages i fs = refl

-- one round of the loop, with pages that are more than one
collect-suc :
    (fuel : ℕ) (m : Machine) (pages i : ℕ) (fs : List (ℕ × ℕ)) {page : ℕ} {p : Physical}
    → 1 < pages
    → i < max_fragments
    → Pages.alloc m.physical pages ≡ some (page, p)
    → collect (suc fuel) m pages i fs ≡ (
        if page == 0
        then collect fuel (record m { physical = p }) pages i fs
        else collect fuel (record m { physical = p }) pages (i + 1) (fs ++ (page, pages) ∷ []))
unfolding collect
collect-suc fuel m pages i fs many more e =
    let go : ltb 0 pages ≡ true = lt→ltb _ _ (omega arith) in
    let go' : ltb i max_fragments ≡ true = lt→ltb _ _ more in
    let several : (pages == 1) ≡ false = ground arith in rw (go, go', e, several) refl

collect-wait :
    (fuel : ℕ) (m : Machine) (pages i : ℕ) (fs : List (ℕ × ℕ))
    → 1 < pages
    → i < max_fragments
    → Pages.alloc m.physical pages ≡ none
    → collect fuel m pages i fs ≡ none
unfolding collect
collect-wait zero m pages i fs many more e = refl
collect-wait (suc fuel) m pages i fs many more e =
    let go : ltb 0 pages ≡ true = lt→ltb _ _ (omega arith) in
    let go' : ltb i max_fragments ≡ true = lt→ltb _ _ more in rw (go, go', e)

collect-spin :
    (fuel : ℕ) (m : Machine) (pages i : ℕ) (fs : List (ℕ × ℕ))
    → 1 < pages
    → i < max_fragments
    → Pages.alloc m.physical pages ≡ some (0, m.physical)
    → collect fuel m pages i fs ≡ none
collect-spin zero m pages i fs many more e = collect-zero m pages i fs
collect-spin (suc fuel) m pages i fs many more e =
    collect-suc fuel m pages i fs many more e ∙ collect-spin fuel m pages i fs many more e

-- The loop never ends, or it ends with as many fragments as a request can have, of `pages` pages each.
abbrev pub Collected : ℕ → Machine → (pages i : ℕ) → List (ℕ × ℕ) → Type 0
Collected fuel m pages i fs =
    ((m' : Machine) × (fs' : List (ℕ × ℕ)) × (collect fuel m pages i fs ≡ some (true, fs', m'))
      × (length fs' + i ≡ length fs + max_fragments)
      × AllHave pages fs')
    ⊎ ((g : ℕ) → collect g m pages i fs ≡ none)

collect-end :
    (fuel : ℕ) (m : Machine) (pages i : ℕ) (fs : List (ℕ × ℕ))
    → 0 + i ≡ max_fragments
    → collect (suc fuel) m pages i fs ≡ some (true, fs, m)
unfolding collect
collect-end fuel m pages i fs e =
    let stop : ltb 0 pages && ltb i max_fragments ≡ false = ground arith in rw stop

-- Once nothing is found the loop goes round and round.
collect-stuck :
    (m : Machine) (pages i : ℕ) (fs : List (ℕ × ℕ)) (p : Physical)
    → 1 < pages
    → i < max_fragments
    → Pages.alloc m.physical pages ≡ some (0, p)
    → (g : ℕ) → collect g m pages i fs ≡ none
collect-stuck m pages i fs p many more e zero = collect-zero m pages i fs
collect-stuck m pages i fs p many more e (suc g) =
    collect-suc g m pages i fs many more e
    ∙ collect-spin g (record m { physical = p }) pages i fs many more
        (alloc-again m.physical p pages e)

if_nonzero {ℓ} : {A : Type ℓ} (n : ℕ) (x y : A) → n ≢ 0 → (if n == 0 then x else y) ≡ y
if_nonzero n x y h = let e : (n == 0) ≡ false = ground arith in rw e

never_on :
    (m m1 : Machine) (pages i : ℕ) (fs : List (ℕ × ℕ)) (page : ℕ)
    → ((g : ℕ)
        → collect (suc g) m pages i fs ≡ collect g m1 pages (i + 1) (fs ++ (page, pages) ∷ []))
    → ((g : ℕ) → collect g m1 pages (i + 1) (fs ++ (page, pages) ∷ []) ≡ none)
    → (g : ℕ) → collect g m pages i fs ≡ none
never_on m m1 pages i fs page on never zero = collect-zero m pages i fs
never_on m m1 pages i fs page on never (suc g) = on g ∙ never g

-- The loop goes on from the machine `m` to `m1`, with one fragment more.
Collected-on :
    (m m1 : Machine) (pages i : ℕ) (fs : List (ℕ × ℕ)) (page fuel : ℕ)
    → ((g : ℕ)
        → collect (suc g) m pages i fs ≡ collect g m1 pages (i + 1) (fs ++ (page, pages) ∷ []))
    → Collected fuel m1 pages (i + 1) (fs ++ (page, pages) ∷ [])
    → Collected (suc fuel) m pages i fs
Collected-on m m1 pages i fs page fuel on (inl (m', fs', done, long, have)) =
    inl (m', fs', on fuel ∙ done, omega (arith, length-append {0} fs ((page, pages) ∷ [])), have)
Collected-on m m1 pages i fs page fuel on (inr never) = inr (never_on m m1 pages i fs page on never)

collect-Collected :
    (n fuel : ℕ) (m : Machine) (pages i : ℕ) (fs : List (ℕ × ℕ))
    → 1 < pages
    → n + i ≡ max_fragments
    → n < fuel
    → AllHave pages fs
    → Collected fuel m pages i fs
collect-Collected zero zero m pages i fs many e enough h = elim enough [ ]
collect-Collected (suc n) zero m pages i fs many e enough h = elim enough [ ]
collect-Collected zero (suc fuel) m pages i fs many e enough h =
    inl (m, fs, collect-end fuel m pages i fs e, omega arith, h)
collect-Collected (suc n) (suc fuel) m pages i fs many e enough h =
    elim (Option-cases (Pages.alloc m.physical pages)) [
      | inl waits ↦ inr (λ g. collect-wait g m pages i fs many (omega arith) waits)
      | inr ((page, p), given) ↦ elim (ℕ_discrete page 0) [
        | yes nothing ↦
            let given' : Pages.alloc m.physical pages ≡ some (0, p) =
              given ∙ ap (λ (k : ℕ). some (k, p)) nothing in
            inr (collect-stuck m pages i fs p many (omega arith) given')
        | no something ↦
            let fs' = fs ++ (page, pages) ∷ [] in
            let m1 : Machine = record m { physical = p } in
            let on = λ (g : ℕ).
              collect-suc g m pages i fs many (omega arith) given
              ∙ if_nonzero page (collect g m1 pages i fs) (collect g m1 pages (i + 1) fs')
                  something in
            Collected-on m m1 pages i fs page fuel on (
              collect-Collected n fuel m1 pages (i + 1) fs' many (omega arith) (omega arith)
                (AllHave-append pages page fs h))
      ]
    ]

-- The collection of fragments for two pages or more, not contiguous: whatever fuel of more than 32
-- rounds the loop has, it ends with 32 fragments, each of as many pages as all are to have; or it does
-- not end with any fuel.
pub fragments_for-Collected :
    (fuel : ℕ) (m : Machine) (pages : ℕ)
    → 1 < pages
    → max_fragments < fuel
    → ((m' : Machine) × (fs : List (ℕ × ℕ)) × (fragments_for fuel m pages false
          ≡ some (true, fs, m'))
        × (length fs ≡ max_fragments)
        × AllHave pages fs)
      ⊎ ((g : ℕ) → fragments_for g m pages false ≡ none)
unfolding fragments_for
fragments_for-Collected fuel m pages many enough =
    let several : (pages == 1) ≡ false = ground arith in
    rw several
      (elim (collect-Collected max_fragments fuel m pages 0 [] many (omega arith) enough tt) [
        | inl (m', fs, done, long, have) ↦ inl (m', fs, done, omega arith, have)
        | inr never ↦ inr never
      ])
