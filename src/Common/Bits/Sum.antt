-- ===== src/Common/Bits/Sum.antt =====
-- `|` of a multiple of a power of two with a number below that power is their sum.
use Prim.Native.Nat.{
  ℕ, zero, suc, ◌+◌, ◌*◌, ◌/◌, ◌%◌, ◌^◌, ◌≤◌, ◌<◌, max, digits, bit_or, bit_or-bitwise,
}
use mathlib.Core.Path.{◌≡◌, ap, ◌∙◌}
use native.Mathlib.Nat.{pow-suc}
use native.Mathlib.Omega.{arith}

twice : (q k : ℕ) → q * 2 ^ suc k ≡ 2 * (q * 2 ^ k)
twice q k = ap (λ (p : ℕ). q * p) (pow-suc 2 k) ∙ omega arith

digits_sum : (n k q a r : ℕ) → a ≡ q * 2 ^ k → r < 2 ^ k → a ≤ n → digits (λ b. b) max n a r ≡ a + r
digits_sum zero k q a r e h le = omega arith
digits_sum (suc n) k q zero r e h le = omega arith
digits_sum (suc n) zero q (suc a) r e h le =
    let rest =
      digits_sum n 0 (suc a / 2) (suc a / 2) (r / 2) (omega arith) (omega arith) (omega arith) in
    omega (arith, rest)
digits_sum (suc n) (suc k) q (suc a) r e h le =
    let half : suc a ≡ 2 * (q * 2 ^ k) = e ∙ twice q k in
    let below : r < 2 * 2 ^ k = omega (arith, pow-suc 2 k) in
    let rest = digits_sum n k q (suc a / 2) (r / 2) (omega arith) (omega arith) (omega arith) in
    omega (arith, rest)

pub bit_or_sum : (k a r : ℕ) → a % 2 ^ k ≡ 0 → r < 2 ^ k → bit_or a r ≡ a + r
bit_or_sum k a r aligned h =
    bit_or-bitwise a r ∙ digits_sum a k (a / 2 ^ k) a r (omega arith) h (omega arith)
