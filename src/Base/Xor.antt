-- ===== src/Base/Xor.antt =====
-- Exclusive or of native numbers, digit by digit.
use Prim.Native.Nat.{
  ℕ, zero, suc, ◌+◌, ◌*◌, ◌/◌, ◌%◌, ◌≤◌, ◌<◌, digits, differ, bit_xor, bit_xor-bitwise,
}
use mathlib.Core.Path.{◌≡◌, refl, ap, ◌∙◌}
use native.Mathlib.Omega.{arith}
use native.Mathlib.Nat.{le_refl}

-- Any fuel that is at least the first number gives the same digits.
same_digits :
    (m n a b : ℕ) → a ≤ m → a ≤ n → digits (λ y. y) differ m a b ≡ digits (λ y. y) differ n a b
same_digits zero zero a b p q = refl
same_digits (suc m) (suc n) zero b p q = refl
same_digits (suc m) (suc n) (suc a) b p q =
    ap (λ d. d * 2 + differ (suc a % 2) (b % 2))
      (same_digits m n (suc a / 2) (b / 2) (omega arith) (omega arith))
same_digits zero (suc n) zero b p q = refl
same_digits (suc m) zero zero b p q = refl
same_digits zero (suc n) (suc a) b p q = absurd (omega arith)
same_digits (suc m) zero (suc a) b p q = absurd (omega arith)

differ_bits : (x y : ℕ) → x < 2 → y < 2 → differ x y ≡ (x + y) % 2
differ_bits zero y p q = omega arith
differ_bits (suc zero) zero p q = refl
differ_bits (suc zero) (suc zero) p q = refl
differ_bits (suc zero) (suc (suc y)) p q = absurd (omega arith)
differ_bits (suc (suc x)) y p q = absurd (omega arith)

-- The lowest digit.
bit_xor-halves : (a b : ℕ) → bit_xor a b ≡ bit_xor (a / 2) (b / 2) * 2 + (a % 2 + b % 2) % 2
bit_xor-halves zero b = simp bit_xor-bitwise (omega arith)
bit_xor-halves (suc a) b = simp bit_xor-bitwise (
    omega (
      arith,
      same_digits a (suc a / 2) (suc a / 2) (b / 2) (omega arith) (le_refl _),
      differ_bits (suc a % 2) (b % 2) (omega arith) (omega arith),
    ))

bit_xor-cancel : (n a b : ℕ) → a ≤ n → b ≤ n → bit_xor (bit_xor a b) b ≡ a
bit_xor-cancel zero zero zero p q = refl
bit_xor-cancel zero (suc a) b p q = absurd (omega arith)
bit_xor-cancel zero zero (suc b) p q = absurd (omega arith)
bit_xor-cancel (suc n) a b p q =
    let x : ℕ = bit_xor a b in
    let h : x ≡ bit_xor (a / 2) (b / 2) * 2 + (a % 2 + b % 2) % 2 = bit_xor-halves a b in
    let half : x / 2 ≡ bit_xor (a / 2) (b / 2) = omega (arith, h) in
    let rest : bit_xor (x / 2) (b / 2) ≡ a / 2 =
      ap (λ y. bit_xor y (b / 2)) half
      ∙ bit_xor-cancel n (a / 2) (b / 2) (omega arith) (omega arith) in
    omega (arith, h, bit_xor-halves x b, rest)

-- Applied twice it gives the number back.
pub bit_xor-bit_xor : (a b : ℕ) → bit_xor (bit_xor a b) b ≡ a
bit_xor-bit_xor a b = bit_xor-cancel (a + b) a b (omega arith) (omega arith)
