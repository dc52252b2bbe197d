-- ===== src/Libc/Strings/Compare.antt =====
-- `strcmp` and `strncmp` return 0 exactly on equal strings, and prefixes.
use firedrake.Common.{
  ℕ, zero, suc, ◌-◌, ◌<◌, ◌≡◌, ◌≢◌, refl, sym, ap, ◌∙◌, ◌↔◌, inl, inr, Bool, true, false, some,
  List, [], ◌∷◌, ◌==◌, leb, if◌then◌else◌, arith, take, ℕ_discrete, Bool-cases,
}
use mathlib.Core.Path.{subst}
use firedrake.Libc.Strings.{
  ℤ, pos, negsuc, difference, compare_strings, strcmp, compare_prefixes, strncmp,
}

-- no character is the `\0`
abbrev pub NoNul : List ℕ → Type 0
NoNul [] = Unit
NoNul (c ∷ cs) = (0 < c) × NoNul cs

is_zero : ℤ → Bool
is_zero (pos zero) = true
is_zero (pos (suc n)) = false
is_zero (negsuc n) = false

first_of : List ℕ → ℕ
first_of [] = 0
first_of (c ∷ cs) = c

rest_of : List ℕ → List ℕ
rest_of [] = []
rest_of (c ∷ cs) = cs

difference-ne_zero : (a b : ℕ) → a ≢ b → difference a b ≢ pos 0
unfolding difference is_zero
difference-ne_zero a b ne e = elim (Bool-cases (leb a b)) [
  | inl le ↦
      let some_left : b - a ≡ suc (b - a - 1) = ground arith in
      let here : pos (b - a) ≡ pos 0 =
        sym (ap (λ o. if o then pos (b - a) else negsuc (a - b - 1)) le) ∙ e in
      let no = ap is_zero (ap pos (sym some_left) ∙ here) in cc
  | inr gt ↦
      let here : negsuc (a - b - 1) ≡ pos 0 =
        sym (ap (λ o. if o then pos (b - a) else negsuc (a - b - 1)) gt) ∙ e in
      let no = ap is_zero here in cc
]

compare_prefixes-take :
    (n : ℕ) (s t : List ℕ)
    → NoNul s
    → NoNul t
    → compare_prefixes n s t ≡ pos 0
    → take n s ≡ take n t
unfolding compare_prefixes
compare_prefixes-take zero s t ns nt e = refl
compare_prefixes-take (suc n) [] [] ns nt e = refl
compare_prefixes-take (suc n) [] (b ∷ bs) ns (nz, nt) e =
    absurd (difference-ne_zero 0 b (omega arith) e)
compare_prefixes-take (suc n) (a ∷ cs) [] (nz, ns) nt e =
    absurd (difference-ne_zero a 0 (omega arith) e)
compare_prefixes-take (suc n) (a ∷ cs) (b ∷ bs) (_, ns) (_, nt) e = elim (ℕ_discrete a b) [
  | yes same ↦
      let test : (a == b) ≡ true = ground arith in
      let rest = sym (ap (λ o. if o then compare_prefixes n cs bs else difference a b) test) ∙ e in
      rw (same, compare_prefixes-take n cs bs ns nt rest) refl
  | no differ ↦
      let test : (a == b) ≡ false = ground arith in
      let rest = sym (ap (λ o. if o then compare_prefixes n cs bs else difference a b) test) ∙ e in
      absurd (difference-ne_zero a b differ rest)
]

take-compare_prefixes :
    (n : ℕ) (s t : List ℕ) → take n s ≡ take n t → compare_prefixes n s t ≡ pos 0
unfolding compare_prefixes first_of rest_of
take-compare_prefixes zero s t e = refl
take-compare_prefixes (suc n) [] [] e = refl
take-compare_prefixes (suc n) [] (b ∷ bs) e = absurd (cc)
take-compare_prefixes (suc n) (a ∷ cs) [] e = absurd (cc)
take-compare_prefixes (suc n) (a ∷ cs) (b ∷ bs) e =
    let same : a ≡ b = ap (λ xs. first_of xs) e in
    let test : (a == b) ≡ true = ground arith in
    ap (λ o. if o then compare_prefixes n cs bs else difference a b) test
    ∙ take-compare_prefixes n cs bs (ap (λ xs. rest_of xs) e)

-- `strncmp` of two strings returns 0 exactly where their first `n` characters, or all of a shorter one,
-- are the same.
pub strncmp_lem :
    (n : ℕ) (s t : List ℕ)
    → NoNul s
    → NoNul t
    → (strncmp (some s) (some t) n ≡ pos 0) ↔ (take n s ≡ take n t)
unfolding strncmp
strncmp_lem n s t ns nt = (compare_prefixes-take n s t ns nt, take-compare_prefixes n s t)

compare_strings-eq : (s t : List ℕ) → NoNul s → NoNul t → compare_strings s t ≡ pos 0 → s ≡ t
unfolding compare_strings
compare_strings-eq [] [] ns nt e = refl
compare_strings-eq [] (b ∷ bs) ns (nz, nt) e = absurd (difference-ne_zero 0 b (omega arith) e)
compare_strings-eq (a ∷ cs) [] (nz, ns) nt e = absurd (difference-ne_zero a 0 (omega arith) e)
compare_strings-eq (a ∷ cs) (b ∷ bs) (_, ns) (_, nt) e = elim (ℕ_discrete a b) [
  | yes same ↦
      let test : (a == b) ≡ true = ground arith in
      let rest = sym (ap (λ o. if o then compare_strings cs bs else difference a b) test) ∙ e in
      rw (same, compare_strings-eq cs bs ns nt rest) refl
  | no differ ↦
      let test : (a == b) ≡ false = ground arith in
      let rest = sym (ap (λ o. if o then compare_strings cs bs else difference a b) test) ∙ e in
      absurd (difference-ne_zero a b differ rest)
]

compare_strings_refl : (s : List ℕ) → compare_strings s s ≡ pos 0
unfolding compare_strings
compare_strings_refl [] = refl
compare_strings_refl (a ∷ cs) =
    let test : (a == a) ≡ true = ground arith in
    ap (λ o. if o then compare_strings cs cs else difference a a) test ∙ compare_strings_refl cs

-- `strcmp` of two strings returns 0 exactly where they are the same.
pub strcmp_lem : (s t : List ℕ) → NoNul s → NoNul t → (strcmp (some s) (some t) ≡ pos 0) ↔ (s ≡ t)
unfolding strcmp
strcmp_lem s t ns nt = (
  compare_strings-eq s t ns nt,
  λ e. subst (λ u. compare_strings s u ≡ pos 0) e (compare_strings_refl s),
)
