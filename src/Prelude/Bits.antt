-- ===== src/Prelude/Bits.antt =====
-- When the exclusive or of two numbers is 0, and when their or is. The native operations mean a
-- recursion on binary digits with fuel.
use Prim.Native.Nat.{ℕ, zero, suc, ◌/◌, ◌%◌, ◌≤◌, ◌<◌, max, digits, differ}
use Prim.Native.Nat.{bit_or, bit_xor, bit_or-bitwise, bit_xor-bitwise}
use mathlib.Core.Path.{◌≡◌, refl, sym, ◌∙◌}
use native.Mathlib.Omega.{arith}

differ_zero : (p q : ℕ) → p < 2 → q < 2 → differ p q ≡ 0 → p ≡ q
differ_zero zero zero hp hq e = refl
differ_zero zero (suc q) hp hq e = ground arith
differ_zero (suc p) zero hp hq e = ground arith
differ_zero (suc zero) (suc zero) hp hq e = refl
differ_zero (suc zero) (suc (suc q)) hp hq e = absurd (omega arith)
differ_zero (suc (suc p)) (suc q) hp hq e = absurd (omega arith)

xor_digits : (n a b : ℕ) → a ≤ n → digits (λ y. y) differ n a b ≡ 0 → a ≡ b
xor_digits zero zero b h e = sym e
xor_digits zero (suc a) b h e = absurd (omega arith)
xor_digits (suc n) zero b h e = sym e
xor_digits (suc n) (suc a) b h e = omega (
  arith,
  xor_digits n (suc a / 2) (b / 2) (omega arith) (omega arith),
  differ_zero (suc a % 2) (b % 2) (omega arith) (omega arith) (omega arith),
)

differ_self : (p : ℕ) → p < 2 → differ p p ≡ 0
differ_self zero h = refl
differ_self (suc zero) h = refl
differ_self (suc (suc p)) h = absurd (omega arith)

xor_digits_self : (n a : ℕ) → a ≤ n → digits (λ y. y) differ n a a ≡ 0
xor_digits_self zero zero h = refl
xor_digits_self zero (suc a) h = absurd (omega arith)
xor_digits_self (suc n) zero h = refl
xor_digits_self (suc n) (suc a) h =
    omega
      (arith, xor_digits_self n (suc a / 2) (omega arith), differ_self (suc a % 2) (omega arith))

or_digits : (n a b : ℕ) → a ≤ n → digits (λ y. y) max n a b ≡ 0 → (a ≡ 0) × (b ≡ 0)
or_digits zero zero b h e = (refl, e)
or_digits zero (suc a) b h e = absurd (omega arith)
or_digits (suc n) zero b h e = (refl, e)
or_digits (suc n) (suc a) b h e =
    omega (arith, or_digits n (suc a / 2) (b / 2) (omega arith) (omega arith))

pub bit_xor_zero : (a b : ℕ) → bit_xor a b ≡ 0 → a ≡ b
bit_xor_zero a b e = xor_digits a a b (omega arith) (sym (bit_xor-bitwise a b) ∙ e)

pub bit_or_zero : (a b : ℕ) → bit_or a b ≡ 0 → (a ≡ 0) × (b ≡ 0)
bit_or_zero a b e = or_digits a a b (omega arith) (sym (bit_or-bitwise a b) ∙ e)

pub bit_xor_self : (a : ℕ) → bit_xor a a ≡ 0
bit_xor_self a = bit_xor-bitwise a a ∙ xor_digits_self a a (omega arith)
