-- ===== src/Prelude/Words.antt =====
-- Machine words of the 32-bit target: `size_t` and `uint32_t` wrap at 2 ^ 32.
use Prim.Native.Nat.{ℕ, ◌+◌, ◌-◌, ◌*◌, ◌/◌, ◌%◌, ◌^◌, ◌<◌}
use mathlib.Core.Path.{◌≡◌}
use mathlib.Core.List.{List, [], ◌∷◌}
use native.Mathlib.Omega.{arith}

abbrev pub IsByte : ℕ → Type 0
IsByte b = b < 256

abbrev pub add32 : ℕ → ℕ → ℕ
add32 a b = (a + b) % 2 ^ 32

abbrev pub sub32 : ℕ → ℕ → ℕ
sub32 a b = (a + 2 ^ 32 - b) % 2 ^ 32

-- `(uint8_t)v`
abbrev pub low_byte : ℕ → ℕ
low_byte v = v % 2 ^ 8

-- The four bytes of `(uint8_t)(v >> 24u)`, `(uint8_t)(v >> 16u)`, `(uint8_t)(v >> 8u)`, `(uint8_t)v`.
abbrev pub be32 : ℕ → List ℕ
be32 v = low_byte (v / 2 ^ 24) ∷ low_byte (v / 2 ^ 16) ∷ low_byte (v / 2 ^ 8) ∷ low_byte v ∷ []

-- `a << 24 | b << 16 | c << 8 | d` on bytes, whose bits do not meet.
abbrev pub of_be32 : ℕ → ℕ → ℕ → ℕ → ℕ
of_be32 a b c d = a * 2 ^ 24 + b * 2 ^ 16 + c * 2 ^ 8 + d

pub of_be32-be32 :
    (v : ℕ)
    → v < 2 ^ 32
    → of_be32 (low_byte (v / 2 ^ 24)) (low_byte (v / 2 ^ 16)) (low_byte (v / 2 ^ 8)) (low_byte v)
      ≡ v
of_be32-be32 v h = omega arith
