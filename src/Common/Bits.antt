-- ===== src/Common/Bits.antt =====
-- Single bits of a word, and `bit_and`, `bit_or` of a word with a power of two.
pub mod Sum
use Prim.Native.Nat.{ℕ, zero, suc, ◌+◌, ◌*◌, ◌/◌, ◌%◌, ◌^◌, ◌<◌}
use mathlib.Core.Path.{◌≡◌, refl, ◌∙◌}
use mathlib.Core.Bool.{Bool, true, false}
use native.Mathlib.Nat.{pow-suc}
use native.Mathlib.Omega.{arith}
use firedrake.Common.Tests.{◌==◌, if◌then◌else◌}

-- `w & (1 << j)`, as a test
unfoldable pub test_bit : ℕ → ℕ → Bool
test_bit w zero = w % 2 == 1
test_bit w (suc j) = test_bit (w / 2) j

-- `w | (1 << j)`
unfoldable pub set_bit : ℕ → ℕ → ℕ
set_bit w zero = w / 2 * 2 + 1
set_bit w (suc j) = set_bit (w / 2) j * 2 + w % 2

-- `w & ~(1 << j)`
unfoldable pub clear_bit : ℕ → ℕ → ℕ
clear_bit w zero = w / 2 * 2
clear_bit w (suc j) = clear_bit (w / 2) j * 2 + w % 2

pub test_bit-set_bit :
    (w j k : ℕ) → test_bit (set_bit w j) k ≡ (if j == k then true else test_bit w k)
unfolding test_bit set_bit
test_bit-set_bit w zero zero = ground arith
test_bit-set_bit w zero (suc k) = ground arith
test_bit-set_bit w (suc j) zero = ground arith
test_bit-set_bit w (suc j) (suc k) = ground (arith, test_bit-set_bit (w / 2) j k)

pub test_bit-clear_bit :
    (w j k : ℕ) → test_bit (clear_bit w j) k ≡ (if j == k then false else test_bit w k)
unfolding test_bit clear_bit
test_bit-clear_bit w zero zero = ground arith
test_bit-clear_bit w zero (suc k) = ground arith
test_bit-clear_bit w (suc j) zero = ground arith
test_bit-clear_bit w (suc j) (suc k) = ground (arith, test_bit-clear_bit (w / 2) j k)

pub test_bit-zero : (j : ℕ) → test_bit 0 j ≡ false
unfolding test_bit
test_bit-zero zero = refl
test_bit-zero (suc j) = test_bit-zero j

-- a word of ones
pub test_bit-ones : (n w j : ℕ) → w + 1 ≡ 2 ^ n → j < n → test_bit w j ≡ true
unfolding test_bit
test_bit-ones zero w j e h = absurd (omega arith)
test_bit-ones (suc n) w zero e h = let e' : w + 1 ≡ 2 ^ n * 2 = e ∙ pow-suc 2 n in ground arith
test_bit-ones (suc n) w (suc j) e h =
    let e' : w + 1 ≡ 2 ^ n * 2 = e ∙ pow-suc 2 n in
    test_bit-ones n (w / 2) j (omega arith) (omega arith)
