-- ===== src/Libc/Strings.antt =====
-- sys/libc/string.c: comparing and searching strings. A string is the list of its characters before the
-- `\0`, each from 1 to 127; behind the end the code reads that 0.
pub mod Compare
mod Tests
use firedrake.Common.{
  ℕ, zero, suc, ◌+◌, ◌-◌, Bool, true, false, Option, none, some, List, [], ◌∷◌, ◌==◌, leb,
  if◌then◌else◌, length, get_or,
}

-- `int`
pub data ℤ : Type 0 where
  pos negsuc : ℕ → ℤ

-- `strlen`
pub strlen : List ℕ → ℕ
strlen [] = 0
strlen (c ∷ cs) = suc (strlen cs)

-- `*str2 - *str1`
pub difference : (a b : ℕ) → ℤ
difference a b = if leb a b then pos (b - a) else negsuc (a - b - 1)

-- the `while` of `strcmp`
pub compare_strings : List ℕ → List ℕ → ℤ
compare_strings [] [] = pos 0
compare_strings [] (b ∷ bs) = difference 0 b
compare_strings (a ∷ cs) [] = difference a 0
compare_strings (a ∷ cs) (b ∷ bs) =
    let rest = compare_strings cs bs in if a == b then rest else difference a b

-- `strcmp`, a `NULL` pointer being none
pub strcmp : Option (List ℕ) → Option (List ℕ) → ℤ
strcmp none t = negsuc 0
strcmp (some s) none = pos 1
strcmp (some s) (some t) = compare_strings s t

-- the `for` of `strncmp`
pub compare_prefixes : ℕ → List ℕ → List ℕ → ℤ
compare_prefixes zero s t = pos 0
compare_prefixes (suc n) [] [] = pos 0
compare_prefixes (suc n) [] (b ∷ bs) = difference 0 b
compare_prefixes (suc n) (a ∷ cs) [] = difference a 0
compare_prefixes (suc n) (a ∷ cs) (b ∷ bs) =
    let rest = compare_prefixes n cs bs in if a == b then rest else difference a b

-- `strncmp`
pub strncmp : Option (List ℕ) → Option (List ℕ) → ℕ → ℤ
strncmp none t n = negsuc 0
strncmp (some s) none n = pos 1
strncmp (some s) (some t) n = compare_prefixes n s t

-- the loop of `strstr`, with `index` characters of `str2` matched, from `start` on
pub search_string : (str1 str2 : List ℕ) → (index : ℕ) → (start : List ℕ) → Option (List ℕ)
search_string [] str2 index start = none
search_string (c ∷ cs) str2 index start =
    let begin = if index == 0 then c ∷ cs else start in
    let further = search_string cs str2 (index + 1) begin in
    let again = search_string cs str2 0 start in
    if c == get_or str2 index 0
    then (if index + 1 == strlen str2 then some begin else further)
    else again

-- `strstr`: the rest of `str1` from the place found on
pub strstr : (str1 str2 : List ℕ) → Option (List ℕ)
strstr str1 str2 = search_string str1 str2 0 []

-- the inner loop of `strpbrk`
pub one_of : ℕ → List ℕ → Bool
one_of c [] = false
one_of c (b ∷ bs) = let rest = one_of c bs in if c == b then true else rest

-- `strpbrk`: the rest of `str1` from the place found on
pub strpbrk : (str1 str2 : List ℕ) → Option (List ℕ)
strpbrk [] str2 = none
strpbrk (c ∷ cs) str2 = let rest = strpbrk cs str2 in if one_of c str2 then some (c ∷ cs) else rest
