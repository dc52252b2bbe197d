-- ===== src/Libc/Strings/Tests.antt =====
-- The theorems on strings at two short ones.
use firedrake.Common.{ℕ, List, ◌≡◌, ◌↔◌, refl, none, some, [], ◌∷◌, arith, take}
use firedrake.Libc.Strings.{
  pos, strcmp, strncmp, strstr, search_string, strlen, compare_strings, difference,
}
use firedrake.Libc.Strings.Compare.{strcmp_lem, strncmp_lem}

abbrev first : List ℕ
first = 97 ∷ 98 ∷ []

abbrev second : List ℕ
second = 97 ∷ 99 ∷ []

strcmp_lem_example : (strcmp (some first) (some second) ≡ pos 0) ↔ (first ≡ second)
strcmp_lem_example =
    strcmp_lem first second (omega arith, (omega arith, tt)) (omega arith, (omega arith, tt))

strncmp_lem_example :
    (strncmp (some first) (some second) 1 ≡ pos 0) ↔ (take 1 first ≡ take 1 second)
strncmp_lem_example =
    strncmp_lem 1 first second (omega arith, (omega arith, tt)) (omega arith, (omega arith, tt))

-- `strstr` goes on behind a character that ends a partial match: it does not find "ab" in "aab".
missed : strstr (97 ∷ 97 ∷ 98 ∷ []) (97 ∷ 98 ∷ []) ≡ none
unfolding strstr search_string strlen
missed = refl

-- A smaller first string gives a positive result.
sign : strcmp (some (97 ∷ [])) (some (98 ∷ [])) ≡ pos 1
unfolding strcmp compare_strings difference
sign = refl
