-- ===== src/Libc/Numbers/Tests.antt =====
-- sys/libc/stdlib.c at concrete numbers
use firedrake.Common.{◌≡◌, refl, true, false, [], ◌∷◌, arith}
use firedrake.Libc.Strings.{pos, negsuc}
use firedrake.Libc.Numbers.{
  is_space, is_digit, skip_spaces, overflows, read_digits, read_signed, atoi, digit, write_digits,
  uitostr, itostr,
}
use firedrake.Libc.Numbers.Print.{atoi-itostr}

prints_42 : itostr (negsuc 41) 10 false ≡ b'-' ∷ b'4' ∷ b'2' ∷ []
unfolding itostr write_digits digit
prints_42 = refl

prints_hex : uitostr 254 16 true ≡ b'f' ∷ b'e' ∷ []
unfolding uitostr write_digits digit
prints_hex = refl

reads_42 : atoi (b' ' ∷ b'+' ∷ b'4' ∷ b'2' ∷ b'x' ∷ []) ≡ pos 42
unfolding atoi skip_spaces is_space read_signed read_digits is_digit overflows
reads_42 = refl

atoi-itostr_example : atoi (itostr (negsuc 41) 10 false) ≡ negsuc 41
atoi-itostr_example = atoi-itostr (negsuc 41) false (omega arith)
