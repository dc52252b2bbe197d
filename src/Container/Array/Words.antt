-- ===== src/Container/Array/Words.antt =====
-- The words of an array's memory: reading, writing and copying them.
use firedrake.Common.{
  ℕ, zero, suc, ◌+◌, ◌<◌, ◌≤◌, ◌≡◌, ◌≢◌, refl, sym, ap, ◌∙◌, List, [], ◌∷◌, ◌++◌, arith, length,
  get_or, set, take, drop, length-set, ℕ_discrete,
}
use firedrake.Container.Array.{copy_words, shift_up, shift_down}

pub get-set_self : (d : List ℕ) (i v : ℕ) → i < length d → get_or (set d i v) i 0 ≡ v
get-set_self [] i v h = absurd (omega arith)
get-set_self (x ∷ d) zero v h = refl
get-set_self (x ∷ d) (suc i) v h = get-set_self d i v (omega arith)

pub get-set_ne : (d : List ℕ) (i j v : ℕ) → i ≢ j → get_or (set d i v) j 0 ≡ get_or d j 0
get-set_ne [] i j v h = refl
get-set_ne (x ∷ d) zero zero v h = absurd (h refl)
get-set_ne (x ∷ d) zero (suc j) v h = refl
get-set_ne (x ∷ d) (suc i) zero v h = refl
get-set_ne (x ∷ d) (suc i) (suc j) v h = get-set_ne d i j v (λ e. h (ap suc e))

pub length-copy_words : (ts fs : List ℕ) (n : ℕ) → length (copy_words ts fs n) ≡ length ts
unfolding copy_words
length-copy_words [] fs n = refl
length-copy_words (t ∷ ts) [] n = refl
length-copy_words (t ∷ ts) (f ∷ fs) zero = refl
length-copy_words (t ∷ ts) (f ∷ fs) (suc n) = ap suc (length-copy_words ts fs n)

-- the words copied are those of the source
pub take-copy_words :
    (ts fs : List ℕ) (n : ℕ)
    → n ≤ length ts
    → n ≤ length fs
    → take n (copy_words ts fs n) ≡ take n fs
unfolding copy_words
take-copy_words ts fs zero h h' = refl
take-copy_words [] fs (suc n) h h' = absurd (omega arith)
take-copy_words (t ∷ ts) [] (suc n) h h' = absurd (omega arith)
take-copy_words (t ∷ ts) (f ∷ fs) (suc n) h h' =
    ap (λ r. f ∷ r) (take-copy_words ts fs n (omega arith) (omega arith))

-- a write behind the first `n` words adds a word to them
pub take-set_last :
    (d : List ℕ) (n v : ℕ) → n < length d → take (suc n) (set d n v) ≡ take n d ++ v ∷ []
take-set_last [] n v h = absurd (omega arith)
take-set_last (x ∷ d) zero v h = refl
take-set_last (x ∷ d) (suc n) v h = ap (λ r. x ∷ r) (take-set_last d n v (omega arith))

pub length-shift_up : (d : List ℕ) (index n : ℕ) → length (shift_up d index n) ≡ length d
unfolding shift_up
length-shift_up d index zero = refl
length-shift_up d index (suc n) =
    length-shift_up (set d (index + suc n) (get_or d (index + n) 0)) index n
    ∙ length-set d (index + suc n) (get_or d (index + n) 0)

pub length-shift_down : (d : List ℕ) (at n : ℕ) → length (shift_down d at n) ≡ length d
unfolding shift_down
length-shift_down d at zero = refl
length-shift_down d at (suc n) =
    length-shift_down (set d at (get_or d (at + 1) 0)) (at + 1) n
    ∙ length-set d at (get_or d (at + 1) 0)

-- Two lists with the same words are the same.
pub words_ext :
    (xs ys : List ℕ)
    → length xs ≡ length ys
    → ((i : ℕ) → i < length xs → get_or xs i 0 ≡ get_or ys i 0)
    → xs ≡ ys
words_ext [] [] e same = refl
words_ext [] (y ∷ ys) e same = absurd (omega arith)
words_ext (x ∷ xs) [] e same = absurd (omega arith)
words_ext (x ∷ xs) (y ∷ ys) e same =
    rw (same 0 (omega arith), words_ext xs ys (omega arith) (λ i h. same (suc i) (omega arith)))
      refl

pub get-take : (d : List ℕ) (n i : ℕ) → i < n → get_or (take n d) i 0 ≡ get_or d i 0
get-take d zero i h = absurd (omega arith)
get-take [] (suc n) i h = refl
get-take (x ∷ d) (suc n) zero h = refl
get-take (x ∷ d) (suc n) (suc i) h = get-take d n i (omega arith)

-- what the loop of `array_insertObject` leaves at each index
pub get-shift_up_low :
    (d : List ℕ) (index n i : ℕ) → i ≤ index → get_or (shift_up d index n) i 0 ≡ get_or d i 0
unfolding shift_up
get-shift_up_low d index zero i h = refl
get-shift_up_low d index (suc n) i h =
    get-shift_up_low (set d (index + suc n) (get_or d (index + n) 0)) index n i h
    ∙ get-set_ne d (index + suc n) i (get_or d (index + n) 0) (omega arith)

pub get-shift_up_above :
    (d : List ℕ) (index n i : ℕ) → index + n < i → get_or (shift_up d index n) i 0 ≡ get_or d i 0
unfolding shift_up
get-shift_up_above d index zero i h = refl
get-shift_up_above d index (suc n) i h =
    get-shift_up_above (set d (index + suc n) (get_or d (index + n) 0)) index n i (omega arith)
    ∙ get-set_ne d (index + suc n) i (get_or d (index + n) 0) (omega arith)

pub get-shift_up :
    (d : List ℕ) (index n i : ℕ)
    → i < n
    → index + n < length d
    → get_or (shift_up d index n) (index + suc i) 0 ≡ get_or d (index + i) 0
unfolding shift_up
get-shift_up d index zero i h lt = absurd (omega arith)
get-shift_up d index (suc n) i h lt = elim (ℕ_discrete i n) [
  | yes e ↦
      let top =
        get-shift_up_above (set d (index + suc n) (get_or d (index + n) 0)) index n (index + suc n)
          (omega arith) in
      rw e (top ∙ get-set_self d (index + suc n) (get_or d (index + n) 0) lt)
  | no ne ↦
      get-shift_up (set d (index + suc n) (get_or d (index + n) 0)) index n i (omega arith)
        (rw (length-set d (index + suc n) (get_or d (index + n) 0)) (omega arith))
      ∙ get-set_ne d (index + suc n) (index + i) (get_or d (index + n) 0) (omega arith)
]

-- and what the loop of `array_removeObjectAtIndex` leaves
pub get-shift_down_low :
    (d : List ℕ) (at n i : ℕ) → i < at → get_or (shift_down d at n) i 0 ≡ get_or d i 0
unfolding shift_down
get-shift_down_low d at zero i h = refl
get-shift_down_low d at (suc n) i h =
    get-shift_down_low (set d at (get_or d (at + 1) 0)) (at + 1) n i (omega arith)
    ∙ get-set_ne d at i (get_or d (at + 1) 0) (omega arith)

pub get-shift_down :
    (d : List ℕ) (at n i : ℕ)
    → i < n
    → at + n < length d
    → get_or (shift_down d at n) (at + i) 0 ≡ get_or d (at + i + 1) 0
unfolding shift_down
get-shift_down d at zero i h lt = absurd (omega arith)
get-shift_down d at (suc n) zero h lt =
    let here : at + 0 ≡ at = omega arith in
    rw here (
      get-shift_down_low (set d at (get_or d (at + 1) 0)) (at + 1) n at (omega arith)
      ∙ get-set_self d at (get_or d (at + 1) 0) (omega arith))
get-shift_down d at (suc n) (suc i) h lt =
    let d' = set d at (get_or d (at + 1) 0) in
    let there : at + suc i ≡ at + 1 + i = omega arith in
    let long : at + 1 + n < length d' = rw (length-set d at (get_or d (at + 1) 0)) (omega arith) in
    rw there (
      get-shift_down d' (at + 1) n i (omega arith) long
      ∙ get-set_ne d at (at + 1 + i + 1) (get_or d (at + 1) 0) (omega arith))

pub get-append_low :
    (xs ys : List ℕ) (i : ℕ) → i < length xs → get_or (xs ++ ys) i 0 ≡ get_or xs i 0
get-append_low [] ys i h = absurd (omega arith)
get-append_low (x ∷ xs) ys zero h = refl
get-append_low (x ∷ xs) ys (suc i) h = get-append_low xs ys i (omega arith)

pub get-append_high : (xs ys : List ℕ) (i : ℕ) → get_or (xs ++ ys) (length xs + i) 0 ≡ get_or ys i 0
get-append_high [] ys i = let e : 0 + i ≡ i = omega arith in ap (λ k. get_or ys k 0) e
get-append_high (x ∷ xs) ys i =
    let e : suc (length xs) + i ≡ suc (length xs + i) = omega arith in
    rw e (get-append_high xs ys i)

pub get-drop : (d : List ℕ) (n i : ℕ) → get_or (drop n d) i 0 ≡ get_or d (n + i) 0
get-drop d zero i = let e : 0 + i ≡ i = omega arith in ap (λ k. get_or d k 0) (sym e)
get-drop [] (suc n) i = refl
get-drop (x ∷ d) (suc n) i = let e : suc n + i ≡ suc (n + i) = omega arith in rw e (get-drop d n i)
