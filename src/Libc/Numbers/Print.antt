-- ===== src/Libc/Numbers/Print.antt =====
-- `atoi` reads back what `_itostr` and `_uitostr` print.
use firedrake.Common.{
  ℕ, zero, suc, ◌+◌, ◌-◌, ◌*◌, ◌/◌, ◌%◌, ◌^◌, ◌<◌, ◌≤◌, ◌≡◌, refl, sym, ap, ◌∙◌, Bool, true, false,
  List, [], ◌∷◌, inl, inr, ◌||◌, ◌==◌, ltb, leb, word, arith, Bool-cases,
}
use mathlib.Core.Path.{subst}
use firedrake.Libc.Strings.{ℤ, pos, negsuc}
use firedrake.Libc.Numbers.{
  is_space, is_digit, skip_spaces, overflows, read_digits, negated, read_signed, atoi, digit,
  write_digits, uitostr, itostr,
}

-- reading one more decimal digit, where the number stays below 2 ^ 31
read_digits-digit :
    (i : ℕ) (lower_case : Bool) (cs : List ℕ)
    → i < 2 ^ 31
    → read_digits (i / 10) (digit lower_case (i % 10) ∷ cs) ≡ read_digits i cs
unfolding read_digits digit is_digit overflows
read_digits-digit i lower_case cs small =
    let low : ltb (i % 10) 10 ≡ true = ground arith in
    let value : (i / 10 * 10 + (b'0' + i % 10 - b'0')) % word ≡ i = omega arith in
    let first : leb b'0' (b'0' + i % 10) ≡ true = ground arith in
    let last : leb (b'0' + i % 10) b'9' ≡ true = ground arith in
    let fits : leb (2 ^ 31) i || ltb i (i / 10) ≡ false = ground arith in
    rw (low, value, first, last, fits)

read_digits-none : (i : ℕ) → read_digits i [] ≡ i
unfolding read_digits
read_digits-none i = refl

read_digits-write_digits :
    (fuel i : ℕ) (lower_case : Bool) (written : List ℕ)
    → i ≤ fuel
    → i < 2 ^ 31
    → read_digits 0 (write_digits fuel i 10 lower_case written) ≡ read_digits i written
unfolding write_digits
read_digits-write_digits zero i lower_case written le small =
    ap (λ (k : ℕ). read_digits k written) (omega arith)
read_digits-write_digits (suc fuel) i lower_case written le small = elim (Bool-cases (i == 0)) [
  | inl done ↦
      let zero_left : i ≡ 0 = ground arith in
      rw done (ap (λ (k : ℕ). read_digits k written) (sym zero_left))
  | inr more ↦ rw more (
      read_digits-write_digits fuel (i / 10) lower_case (digit lower_case (i % 10) ∷ written)
        (ground arith) (omega arith)
      ∙ read_digits-digit i lower_case written small)
]

write_digits-zero :
    (fuel : ℕ) (lower_case : Bool) (written : List ℕ)
    → write_digits fuel 0 10 lower_case written ≡ written
unfolding write_digits
write_digits-zero zero lower_case written = refl
write_digits-zero (suc fuel) lower_case written = refl

-- a text that begins with a digit
abbrev DigitFirst : List ℕ → Type 0
DigitFirst [] = ⊥
DigitFirst (c ∷ cs) = is_digit c ≡ true

digit-DigitFirst :
    (d : ℕ) (lower_case : Bool) (written : List ℕ)
    → d < 10
    → DigitFirst (digit lower_case d ∷ written)
unfolding digit is_digit
digit-DigitFirst d lower_case written h = ground arith

write_digits-DigitFirst :
    (fuel i : ℕ) (lower_case : Bool) (written : List ℕ)
    → i ≤ fuel
    → 0 < i
    → DigitFirst (write_digits fuel i 10 lower_case written)
unfolding write_digits
write_digits-DigitFirst zero i lower_case written le positive = absurd (omega arith)
write_digits-DigitFirst (suc fuel) i lower_case written le positive =
    let more : (i == 0) ≡ false = ground arith in
    let first = digit lower_case (i % 10) ∷ written in
    rw more (elim (Bool-cases (i / 10 == 0)) [
      | inl last ↦
          let none_left : i / 10 ≡ 0 = ground arith in
          let end : write_digits fuel (i / 10) 10 lower_case first ≡ first =
            ap (λ (k : ℕ). write_digits fuel k 10 lower_case first) none_left
            ∙ write_digits-zero fuel lower_case first in
          subst DigitFirst (sym end) (digit-DigitFirst (i % 10) lower_case written (omega arith))
      | inr further ↦
          write_digits-DigitFirst fuel (i / 10) lower_case first (omega arith) (ground arith)
    ])

atoi-DigitFirst : (cs : List ℕ) → DigitFirst cs → atoi cs ≡ pos (read_digits 0 cs)
unfolding atoi skip_spaces is_space read_signed is_digit
atoi-DigitFirst [] h = absurd h
atoi-DigitFirst (c ∷ cs) h =
    let bounds : (48 ≤ c) × (c ≤ 57) = ground arith in
    let visible : (c == b' ' || c == b'\t' || c == b'\n' || c == 11 || c == 12 || c == b'\r')
        ≡ false =
      ground arith in
    let plain : (c == b'-') ≡ false = ground arith in
    let plus : (c == b'+') ≡ false = ground arith in rw (visible, plain, plus)

atoi-minus : (cs : List ℕ) → atoi (b'-' ∷ cs) ≡ negated (read_digits 0 cs)
unfolding atoi skip_spaces is_space read_signed
atoi-minus cs = refl

atoi-zero : atoi (b'0' ∷ []) ≡ pos 0
unfolding atoi skip_spaces is_space read_signed read_digits is_digit overflows
atoi-zero = refl

-- the absolute value
abbrev pub magnitude : ℤ → ℕ
magnitude (pos n) = n
magnitude (negsuc n) = suc n

-- For a number that is above -2 ^ 31 and below 2 ^ 31, `atoi` of the decimal digits that `_itostr`
-- prints is the number.
pub atoi-itostr :
    (i : ℤ) (lower_case : Bool) → magnitude i < 2 ^ 31 → atoi (itostr i 10 lower_case) ≡ i
unfolding itostr uitostr negated
atoi-itostr (pos n) lower_case small = elim (Bool-cases (n == 0)) [
  | inl nothing ↦ let e : n ≡ 0 = ground arith in rw nothing (atoi-zero ∙ ap pos (sym e))
  | inr digits ↦ rw digits (
      atoi-DigitFirst _ (write_digits-DigitFirst n n lower_case [] (omega arith) (ground arith))
      ∙ ap pos
          (read_digits-write_digits n n lower_case [] (omega arith) small ∙ read_digits-none n))
]
atoi-itostr (negsuc n) lower_case small =
    let other : (suc n == 2 ^ 31) ≡ false = ground arith in
    rw other (
      atoi-minus (write_digits (suc n) (suc n) 10 lower_case [])
      ∙ ap negated (
          read_digits-write_digits (suc n) (suc n) lower_case [] (omega arith) small
          ∙ read_digits-none (suc n)))
