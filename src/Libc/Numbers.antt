-- ===== src/Libc/Numbers.antt =====
-- sys/libc/stdlib.c: numbers as text. A string is the list of its characters before the `\0`.
pub mod Print
mod Tests
use firedrake.Common.{
  ℕ, zero, suc, ◌+◌, ◌-◌, ◌*◌, ◌/◌, ◌%◌, ◌^◌, Bool, true, false, List, [], ◌∷◌, ◌&&◌, ◌||◌, ◌==◌,
  ltb, leb, if◌then◌else◌, length, word,
}
use firedrake.Libc.Strings.{ℤ, pos, negsuc}

-- `isspace`
pub is_space : ℕ → Bool
is_space c = c == b' ' || c == b'\t' || c == b'\n' || c == 11 || c == 12 || c == b'\r'

-- `isdigit`
pub is_digit : ℕ → Bool
is_digit c = leb b'0' c && leb c b'9'

-- the loop that skips white space
pub skip_spaces : List ℕ → List ℕ
skip_spaces [] = []
skip_spaces (c ∷ cs) = if is_space c then skip_spaces cs else c ∷ cs

-- `intermediate < result`, with the sum as a 32-bit word and `result` not negative
pub overflows : (result intermediate : ℕ) → Bool
overflows result intermediate = leb (2 ^ 31) intermediate || ltb intermediate result

-- The loop of `atoi` over the digits. A signed sum that overflows is taken to wrap.
pub read_digits : (result : ℕ) → List ℕ → ℕ
read_digits result [] = result
read_digits result (c ∷ cs) =
    let intermediate = (result * 10 + (c - b'0')) % word in
    let rest = read_digits intermediate cs in
    if is_digit c then if overflows result intermediate then result else rest else result

-- `-result`
pub negated : ℕ → ℤ
negated zero = pos 0
negated (suc n) = negsuc n

-- `atoi` behind the white space
pub read_signed : List ℕ → ℤ
read_signed [] = pos 0
read_signed (c ∷ cs) =
    if c == b'-'
    then negated (read_digits 0 cs)
    else if c == b'+'
    then pos (read_digits 0 cs)
    else pos (read_digits 0 (c ∷ cs))

-- `atoi`
pub atoi : List ℕ → ℤ
atoi string = read_signed (skip_spaces string)

-- `digits[d]`
pub digit : (lower_case : Bool) → (d : ℕ) → ℕ
digit lower_case d = if ltb d 10 then b'0' + d else if lower_case then 87 + d else 55 + d

-- The loop that writes the digits of `i` before those that are there. `i` falls in each round, so that
-- `i` rounds are enough for a base of 2 or more.
pub write_digits : (fuel i base : ℕ) → (lower_case : Bool) → List ℕ → List ℕ
write_digits zero i base lower_case written = written
write_digits (suc fuel) i base lower_case written =
    let rest =
      write_digits fuel (i / base) base lower_case (digit lower_case (i % base) ∷ written) in
    if i == 0 then written else rest

-- `_uitostr` and `_uitostr64`: the text, whose length is returned
pub uitostr : (i base : ℕ) → (lower_case : Bool) → List ℕ
uitostr i base lower_case = if i == 0 then b'0' ∷ [] else write_digits i i base lower_case []

-- `_itostr`. `-i` of -2 ^ 31 is that number again, so that no digit is written.
pub itostr : (i : ℤ) → (base : ℕ) → (lower_case : Bool) → List ℕ
itostr (pos n) base lower_case = uitostr n base lower_case
itostr (negsuc n) base lower_case =
    b'-' ∷ (if suc n == 2 ^ 31 then [] else write_digits (suc n) (suc n) base lower_case [])
