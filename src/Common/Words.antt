-- ===== src/Common/Words.antt =====
-- The 32-bit words of the kernel's target: `uint32_t`, `size_t` and `uintptr_t` are below 2 ^ 32.
use Prim.Native.Nat.{ℕ, ◌+◌, ◌-◌, ◌*◌, ◌%◌, ◌^◌}
use firedrake.Common.Tests.{ltb, if◌then◌else◌}

abbrev pub word : ℕ
word = 2 ^ 32

abbrev pub add32 : ℕ → ℕ → ℕ
add32 a b = (a + b) % word

abbrev pub sub32 : ℕ → ℕ → ℕ
sub32 a b = (a + word - b) % word

abbrev pub mul32 : ℕ → ℕ → ℕ
mul32 a b = (a * b) % word

-- `MIN(a, b)` of sys/libc/math.h
abbrev pub minimum : ℕ → ℕ → ℕ
minimum a b = if ltb a b then a else b
