-- ===== src/Cbor/Reader/Rewind.antt =====
-- An input of src/cbor.c in which the length of a byte string wraps `size_t`, so that the offset moves
-- back to the array that the string stands in.
use meow_key.Prelude.{ℕ, zero, suc, ◌≤◌, ◌<◌, ◌^◌, List, ◌∷◌, ◌≡◌, refl, arith}
use meow_key.Cbor.Reader.{Reader, exhausted, reader_take, read_length, read_initial}
use meow_key.Cbor.Reader.{skip_items, skip_view, skip_body, skip}

-- An array of two items at offset 0, the first a byte string of length 2 ^ 32 - 6.
abbrev pub rewinding : List ℕ → ℕ → Reader
rewinding rest n = record {
  buffer = 0x82 ∷ 0x5a ∷ 0xff ∷ 0xff ∷ 0xff ∷ 0xfa ∷ rest;
  length = n;
  offset = 0;
}

-- On any input that starts with these six bytes `skip` uses up every fuel.
pub skip-rewinding :
    (fuel : ℕ) (rest : List ℕ) (n : ℕ)
    → 6 ≤ n
    → n < 2 ^ 32
    → skip fuel (rewinding rest n) ≡ exhausted
unfolding skip skip_body skip_items skip_view read_initial read_length reader_take
skip-rewinding zero rest n h small = refl
skip-rewinding (suc zero) rest n h small = ground arith
skip-rewinding (suc (suc fuel)) rest n h small = ground (arith, skip-rewinding (suc fuel) rest n)
