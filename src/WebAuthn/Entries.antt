-- ===== src/WebAuthn/Entries.antt =====
-- What the parsers of src/webauthn.c share: the loops over the entries of a map or an array, the texts
-- that are keys, and the copies of a view.
use meow_key.Prelude.{
  ℕ, zero, suc, Option, none, some, Bool, true, false, ◌&&◌, not, List, [], length, ltb, leb, ◌==◌,
}
use meow_key.Store.Slots.{same_bytes}
use meow_key.ClientPin.Request.{shown}
use meow_key.Cbor.Reader.{View, M, ◌>>=◌, pure, check, skip}

-- A `have_` flag.
abbrev pub has : {A : Type 0} → Option A → Bool
has none = false
has (some a) = true

-- The body of a loop, the given number of times.
unfoldable pub loop : {A : Type 0} → (A → M A) → ℕ → A → M A
loop body zero a = pure a
loop body (suc n) a = body a >>= λ b. loop body n b

-- `key.length == n && memcmp(key.data, text, n) == 0`
unfoldable pub is_text : List ℕ → View → Bool
is_text text key = key.length == length text && same_bytes (length text) key.bytes text

-- The bytes of a string, and their length.
pub record Bytes : Type 0 where
  pub content : List ℕ
  pub size : ℕ

abbrev pub no_bytes : Bytes
no_bytes = record { content = []; size = 0 }

-- `copy_view_to_string`, which leaves room for the byte behind the string.
unfoldable pub copy_view_to_string : ℕ → View → M Bytes
copy_view_to_string output_capacity view = check (not (leb output_capacity view.length)) >>= λ _.
    pure (record { content = shown view; size = view.length })

unfoldable pub copy_view_to_bytes : ℕ → View → M Bytes
copy_view_to_bytes output_capacity view = check (not (ltb output_capacity view.length)) >>= λ _.
    pure (record { content = shown view; size = view.length })

-- An entry that is not looked at.
abbrev pub ignore : {A : Type 0} → ℕ → A → M A
ignore fuel a = skip fuel >>= λ _. pure a
