-- ===== src/ClientPin/Crypto.antt =====
-- What src/client_pin.c takes from mbedtls and from the chip, and the checks that it builds on it.
use Prim.Native.Nat.{bit_or, bit_xor}
use meow_key.Prelude.{ℕ, zero, suc, ◌%◌, Bool, not, List, Option, none, some}
use meow_key.Prelude.{length, get_or, ◌==◌, if◌then◌else◌}

-- The primitives, `none` where the library reports an error: SHA-256; HMAC-SHA-256 of a key and a
-- message; AES-256-CBC with a zero vector, encrypting if the flag is set; and the x coordinate of
-- the product of a private key and a peer's point, which is refused if it is not on the curve.
pub record Primitives : Type 0 where
  pub sha256 : List ℕ → Option (List ℕ)
  pub hmac : List ℕ → List ℕ → Option (List ℕ)
  pub aes_cbc : Bool → List ℕ → List ℕ → Option (List ℕ)
  pub ecdh_x : List ℕ → List ℕ → Option (List ℕ)

-- The variable `diff` of `constant_time_equal` after the given number of rounds.
unfoldable pub difference : ℕ → List ℕ → List ℕ → ℕ
difference zero left right = 0
difference (suc n) left right =
    bit_or (difference n left right) (bit_xor (get_or left n 0) (get_or right n 0))

unfoldable pub constant_time_equal : List ℕ → List ℕ → ℕ → Bool
constant_time_equal left right n = difference n left right == 0

module _ (p : Primitives) where
  unfoldable pub aes256_cbc_crypt : Bool → List ℕ → List ℕ → Option (List ℕ)
  aes256_cbc_crypt encrypt key input =
      if not (length input % 16 == 0) then none else p.aes_cbc encrypt key input

  -- The shared secret, once the key agreement key is there.
  unfoldable pub derive_shared_secret : Option (List ℕ × List ℕ) → List ℕ → Option (List ℕ)
  derive_shared_secret none peer = none
  derive_shared_secret (some (private, public)) peer = elim (p.ecdh_x private peer) [
    | none ↦ none
    | some x ↦ p.sha256 x
  ]
