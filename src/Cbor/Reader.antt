-- ===== src/Cbor/Reader.antt =====
-- The CBOR reader of src/cbor.c. A failed call returns `failed`: every caller in the source gives
-- up at once on `false`, so the reader that it leaves behind is never read again.
pub mod Bounds
pub mod Rewind
use meow_key.Prelude.{ℕ, zero, suc, ◌+◌, ◌*◌, ◌/◌, ◌%◌, ◌^◌, Bool, true, false, ◌&&◌, ◌||◌}
use meow_key.Prelude.{List, drop, get_or, ltb, leb, ◌==◌, if◌then◌else◌, add32, of_be32}
use meow_key.Prelude.{ℤ, pos, negsuc}

-- `meowkey_cbor_view_t`. `bytes` is the memory from the view's pointer on; the view is its first
-- `length` bytes.
pub record View : Type 0 where
  pub bytes : List ℕ
  pub length : ℕ

-- `meowkey_cbor_reader_t`
pub record Reader : Type 0 where
  pub buffer : List ℕ
  pub length : ℕ
  pub offset : ℕ

-- `exhausted` is no answer of the code: the recursion of `skip` ran out of fuel.
pub data Result (A : Type 0) : Type 0 where
  ok : A → Reader → Result A
  failed : Result A
  exhausted : Result A

abbrev pub M : Type 0 → Type 0
M A = Reader → Result A

infixl 5 ◌>>=◌ ◌>>◌
abbrev pub ◌>>=◌ : {A B : Type 0} → M A → (A → M B) → M B
◌>>=◌ m f r = elim (m r) [ ok a r' ↦ f a r' | failed ↦ failed | exhausted ↦ exhausted ]

abbrev pub ◌>>◌ : {B : Type 0} → M (Unit {0}) → M B → M B
m >> k = m >>= λ _. k

abbrev pub pure : {A : Type 0} → A → M A
pure a r = ok a r

abbrev pub give_up : {A : Type 0} → M A
give_up r = failed

abbrev pub check : Bool → M (Unit {0})
check true = pure tt
check false = give_up

unfoldable pub reader_init : List ℕ → ℕ → Reader
reader_init buffer length = record { buffer = buffer; length = length; offset = 0 }

-- The sum is taken in the 32-bit `size_t`.
unfoldable pub reader_take : ℕ → M View
reader_take length r =
    if ltb r.length (add32 r.offset length)
    then failed
    else ok (record { bytes = drop r.offset r.buffer; length = length })
        (record r { offset = add32 r.offset length })

-- `view.data[i]`
abbrev pub at : View → ℕ → ℕ
at view i = get_or view.bytes i 0

unfoldable pub read_length : ℕ → M ℕ
read_length additional =
    if ltb additional 24
    then pure additional
    else if additional == 24
    then (reader_take 1 >>= λ view. pure (at view 0))
    else if additional == 25
    then (reader_take 2 >>= λ view. pure (at view 0 * 2 ^ 8 + at view 1))
    else if additional == 26
    then (reader_take 4 >>= λ view. pure (of_be32 (at view 0) (at view 1) (at view 2) (at view 3)))
    else give_up

-- The major type, `data[0] >> 5`, and the additional information, `data[0] & 0x1f`.
unfoldable pub read_initial : M (ℕ × ℕ)
read_initial = reader_take 1 >>= λ view. pure (at view 0 / 2 ^ 5, at view 0 % 2 ^ 5)

-- The head of an item that must have the given major type.
abbrev read_head : ℕ → M ℕ
read_head major = do (m, additional) ← read_initial; check (m == major); read_length additional

unfoldable pub read_map_start : M ℕ
read_map_start = read_head 5

unfoldable pub read_array_start : M ℕ
read_array_start = read_head 4

unfoldable pub read_int : M ℤ
read_int = do
  (major, additional) ← read_initial
  check (major == 0 || major == 1)
  raw ← read_length additional
  if major == 0 then pure (pos raw) else pure (negsuc raw)

unfoldable pub read_bool : M Bool
read_bool = do
  (major, additional) ← read_initial
  check (major == 7)
  if additional == 20 then pure false else if additional == 21 then pure true else give_up

unfoldable pub read_bytes : M View
read_bytes = do length ← read_head 2; reader_take length

unfoldable pub read_text : M View
read_text = do length ← read_head 3; reader_take length

-- `cbor_skip_items`, with the call of `meowkey_cbor_skip` handed in.
unfoldable pub skip_items : M (Unit {0}) → ℕ → M (Unit {0})
skip_items item zero = pure tt
skip_items item (suc count) = item >>= λ _. skip_items item count

unfoldable pub skip_view : ℕ → M (Unit {0})
skip_view n = reader_take n >>= λ _. pure tt

-- The case of major type 7.
unfoldable pub skip_simple : ℕ → M (Unit {0})
unfolding skip_view
skip_simple additional =
    if leb additional 23
    then pure tt
    else if additional == 24
    then skip_view 1
    else if additional == 25
    then skip_view 2
    else if additional == 26
    then skip_view 4
    else give_up

-- The `switch` of `meowkey_cbor_skip`. A map holds `count * 2u` items, a product of `size_t`.
unfoldable pub skip_body : M (Unit {0}) → ℕ → ℕ → M (Unit {0})
skip_body item major additional =
    if major == 0 || major == 1
    then (read_length additional >>= λ _. pure tt)
    else if major == 2 || major == 3
    then (read_length additional >>= λ count. skip_view count)
    else if major == 4
    then (read_length additional >>= λ count. skip_items item count)
    else if major == 5
    then (read_length additional >>= λ count. skip_items item (count * 2 % 2 ^ 32))
    else if major == 7
    then skip_simple additional
    else give_up

-- `meowkey_cbor_skip`; the fuel is the depth of the recursion that is allowed.
unfoldable pub skip : ℕ → M (Unit {0})
skip zero r = exhausted
skip (suc fuel) r = (read_initial >>= λ head. skip_body (skip fuel) head.0 head.1) r
