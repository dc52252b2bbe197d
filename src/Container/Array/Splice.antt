-- ===== src/Container/Array/Splice.antt =====
-- Inserting a word among the first ones of a memory, and removing one.
use firedrake.Common.{
  ℕ, suc, ◌+◌, ◌-◌, ◌<◌, ◌≤◌, ◌≡◌, refl, sym, ap, ◌∙◌, inl, inr, true, false, List, ◌∷◌, ◌++◌,
  arith, ltb, if◌then◌else◌, length, get_or, set, take, drop, length-set, length-take, length-drop,
  length-append, Bool-cases, ℕ_discrete, dec_lt,
}
use firedrake.Container.Array.{shift_up, shift_down}
use firedrake.Container.Array.Words.{
  length-shift_up, length-shift_down, words_ext, get-take, get-set_self, get-set_ne,
  get-shift_up_low, get-shift_up, get-shift_down_low, get-shift_down, get-append_low,
  get-append_high, get-drop,
}

-- the words of a list with one put in
get-insert :
    (xs : List ℕ) (object index i : ℕ)
    → index ≤ length xs
    → get_or (take index xs ++ object ∷ drop index xs) i 0
      ≡ (if ltb i index then get_or xs i 0 else if ltb index i then get_or xs (i - 1) 0 else object)
get-insert xs object index i le =
    let front = length-take index xs in
    let long : length (take index xs) ≡ index = omega arith in
    elim (dec_lt i index) [
      | yes low ↦
          let test : ltb i index ≡ true = ground arith in
          rw test (
            get-append_low (take index xs) (object ∷ drop index xs) i (omega arith)
            ∙ get-take xs index i low)
      | no high ↦
          let test : ltb i index ≡ false = ground arith in
          let at : length (take index xs) + (i - index) ≡ i = omega arith in
          let moved : get_or (take index xs ++ object ∷ drop index xs) i 0
              ≡ get_or (object ∷ drop index xs) (i - index) 0 =
            ap (λ k. get_or (take index xs ++ object ∷ drop index xs) k 0) (sym at)
            ∙ get-append_high (take index xs) (object ∷ drop index xs) (i - index) in
          elim (ℕ_discrete i index) [
            | yes e ↦
                let zero_off : i - index ≡ 0 = omega arith in
                let test' : ltb index i ≡ false = ground arith in
                rw (test, test') (moved ∙ ap (λ k. get_or (object ∷ drop index xs) k 0) zero_off)
            | no ne ↦
                let off : i - index ≡ suc (i - index - 1) = omega arith in
                let back : index + (i - index - 1) ≡ i - 1 = omega arith in
                let test' : ltb index i ≡ true = ground arith in
                rw (test, test')
                  (moved
                    ∙ ap (λ k. get_or (object ∷ drop index xs) k 0) off
                    ∙ get-drop xs index (i - index - 1)
                    ∙ ap (λ k. get_or xs k 0) back)
          ]
    ]

get-remove :
    (xs : List ℕ) (index i : ℕ)
    → index < length xs
    → get_or (take index xs ++ drop (suc index) xs) i 0
      ≡ (if ltb i index then get_or xs i 0 else get_or xs (i + 1) 0)
get-remove xs index i lt =
    let front = length-take index xs in
    let long : length (take index xs) ≡ index = omega arith in
    elim (dec_lt i index) [
      | yes low ↦
          let test : ltb i index ≡ true = ground arith in
          rw test (
            get-append_low (take index xs) (drop (suc index) xs) i (omega arith)
            ∙ get-take xs index i low)
      | no high ↦
          let test : ltb i index ≡ false = ground arith in
          let at : length (take index xs) + (i - index) ≡ i = omega arith in
          let back : suc index + (i - index) ≡ i + 1 = omega arith in
          rw test (
            ap (λ k. get_or (take index xs ++ drop (suc index) xs) k 0) (sym at)
            ∙ get-append_high (take index xs) (drop (suc index) xs) (i - index)
            ∙ get-drop xs (suc index) (i - index)
            ∙ ap (λ k. get_or xs k 0) back)
    ]

get-shifted_up :
    (d : List ℕ) (object index n i : ℕ)
    → index < n
    → n < length d
    → i < suc n
    → get_or (set (shift_up d index (n - index)) index object) i 0
      ≡ (if ltb i index then get_or d i 0 else if ltb index i then get_or d (i - 1) 0 else object)
get-shifted_up d object index n i lt long h =
    let e = shift_up d index (n - index) in
    let size = length-shift_up d index (n - index) in
    elim (ℕ_discrete index i) [
      | yes same ↦
          let test : ltb i index ≡ false = ground arith in
          let test' : ltb index i ≡ false = ground arith in
          rw (test, test', ← same) (get-set_self e index object (omega arith))
      | no ne ↦ get-set_ne e index i object ne ∙ elim (dec_lt i index) [
        | yes low ↦
            let test : ltb i index ≡ true = ground arith in
            rw test (get-shift_up_low d index (n - index) i (omega arith))
        | no high ↦
            let test : ltb i index ≡ false = ground arith in
            let test' : ltb index i ≡ true = ground arith in
            let at : index + suc (i - index - 1) ≡ i = omega arith in
            let back : index + (i - index - 1) ≡ i - 1 = omega arith in
            rw (test, test')
              (ap (λ k. get_or e k 0) (sym at)
                ∙ get-shift_up d index (n - index) (i - index - 1) (omega arith) (omega arith)
                ∙ ap (λ k. get_or d k 0) back)
      ]
    ]

get-shifted_down :
    (d : List ℕ) (index n i : ℕ)
    → index < n
    → n < length d
    → i < n - 1
    → get_or (if ltb index (n - 1) then shift_down d index (n - index - 1) else d) i 0
      ≡ (if ltb i index then get_or d i 0 else get_or d (i + 1) 0)
get-shifted_down d index n i lt long h = elim (dec_lt i index) [
  | yes low ↦
      let test : ltb i index ≡ true = ground arith in
      rw test (elim (Bool-cases (ltb index (n - 1))) [
        | inl e ↦ rw e (get-shift_down_low d index (n - index - 1) i low)
        | inr e ↦ rw e refl
      ])
  | no high ↦
      let test : ltb i index ≡ false = ground arith in
      let test' : ltb index (n - 1) ≡ true = ground arith in
      let at : index + (i - index) ≡ i = omega arith in
      let back : index + (i - index) + 1 ≡ i + 1 = omega arith in
      rw (test, test')
        (ap (λ k. get_or (shift_down d index (n - index - 1)) k 0) (sym at)
          ∙ get-shift_down d index (n - index - 1) (i - index) (omega arith) (omega arith)
          ∙ ap (λ k. get_or d k 0) back)
]

-- the reads above are of the first `n` words
same_reads :
    (d : List ℕ) (object index n i : ℕ)
    → index < n
    → i < suc n
    → (if ltb i index then get_or d i 0 else if ltb index i then get_or d (i - 1) 0 else object) ≡ (
        if ltb i index
        then get_or (take n d) i 0
        else if ltb index i
        then get_or (take n d) (i - 1) 0
        else object)
same_reads d object index n i lt h = elim (Bool-cases (ltb i index)) [
  | inl e ↦ rw e (sym (get-take d n i (ground arith)))
  | inr e ↦ elim (Bool-cases (ltb index i)) [
    | inl e' ↦ rw (e, e') (sym (get-take d n (i - 1) (ground arith)))
    | inr e' ↦ rw (e, e') refl
  ]
]

same_reads_behind :
    (d : List ℕ) (index n i : ℕ)
    → i < n - 1
    → (if ltb i index then get_or d i 0 else get_or d (i + 1) 0)
      ≡ (if ltb i index then get_or (take n d) i 0 else get_or (take n d) (i + 1) 0)
same_reads_behind d index n i h = elim (Bool-cases (ltb i index)) [
  | inl e ↦ rw e (sym (get-take d n i (omega arith)))
  | inr e ↦ rw e (sym (get-take d n (i + 1) (omega arith)))
]

-- what the end of `array_insertObject` does to the first words
pub insert_words :
    (d : List ℕ) (object index n : ℕ)
    → index < n
    → n < length d
    → take (suc n) (set (shift_up d index (n - index)) index object)
      ≡ take index (take n d) ++ object ∷ drop index (take n d)
insert_words d object index n lt long =
    let moved = set (shift_up d index (n - index)) index object in
    let size = length-set (shift_up d index (n - index)) index object in
    let size' = length-shift_up d index (n - index) in
    let held = length-take n d in
    words_ext (take (suc n) moved) (take index (take n d) ++ object ∷ drop index (take n d))
      (omega (
        arith,
        length-take (suc n) moved,
        length-append (take index (take n d)) (object ∷ drop index (take n d)),
        length-take index (take n d),
        length-drop index (take n d),
      ))
      (λ i h.
        let i_low : i < suc n = omega (arith, length-take (suc n) moved) in
        get-take moved (suc n) i i_low
        ∙ get-shifted_up d object index n i lt long i_low
        ∙ same_reads d object index n i lt i_low
        ∙ sym (get-insert (take n d) object index i (omega arith)))

-- what the loop of `array_removeObjectAtIndex` does to them
pub remove_words :
    (d : List ℕ) (index n : ℕ)
    → index < n
    → n < length d
    → take (n - 1) (if ltb index (n - 1) then shift_down d index (n - index - 1) else d)
      ≡ take index (take n d) ++ drop (suc index) (take n d)
remove_words d index n lt long =
    let moved = if ltb index (n - 1) then shift_down d index (n - index - 1) else d in
    let held = length-take n d in
    let size : length moved ≡ length d = elim (Bool-cases (ltb index (n - 1))) [
      | inl e ↦ rw e (length-shift_down d index (n - index - 1))
      | inr e ↦ rw e refl
    ] in
    words_ext (take (n - 1) moved) (take index (take n d) ++ drop (suc index) (take n d))
      (omega (
        arith,
        length-take (n - 1) moved,
        length-append (take index (take n d)) (drop (suc index) (take n d)),
        length-take index (take n d),
        length-drop (suc index) (take n d),
      ))
      (λ i h.
        let i_low : i < n - 1 = omega (arith, length-take (n - 1) moved) in
        get-take moved (n - 1) i i_low
        ∙ get-shifted_down d index n i lt long i_low
        ∙ same_reads_behind d index n i i_low
        ∙ sym (get-remove (take n d) index i (omega arith)))
