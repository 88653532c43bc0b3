-- ===== src/Cbor/Writer.antt =====
-- The CBOR writer of src/cbor.c.
pub mod Emits
use meow_key.Prelude.{ℕ, ◌+◌, ◌*◌, ◌/◌, ◌%◌, ◌^◌, Bool, true, false, ◌||◌}
use meow_key.Prelude.{List, [], ◌∷◌, ◌++◌, length, ltb, leb, if◌then◌else◌, add32, low_byte, be32}
use meow_key.Prelude.{ℤ, pos, negsuc}

-- `meowkey_cbor_writer_t`. `bytes` is what the buffer holds below `length`.
pub record Writer : Type 0 where
  pub bytes : List ℕ
  pub capacity : ℕ
  pub length : ℕ
  pub failed : Bool

-- Each write returns its `bool` and the writer that it leaves.
abbrev pub Write : Type 0
Write = Writer → Bool × Writer

unfoldable pub writer_init : ℕ → Writer
writer_init capacity = record { bytes = []; capacity = capacity; length = 0; failed = false }

unfoldable pub writer_put : List ℕ → Write
writer_put bytes w =
    if w.failed || ltb w.capacity (add32 w.length (length bytes))
    then (false, record w { failed = true })
    else (true, record w { bytes = w.bytes ++ bytes; length = add32 w.length (length bytes) })

-- The `header` of `cbor_write_type_and_value`, cut to its `length`. `(major << 5u) | value` is a
-- sum, since the value of that byte is below 32.
unfoldable pub header_bytes : ℕ → ℕ → List ℕ
header_bytes major value =
    if ltb value 24
    then (low_byte (major * 2 ^ 5 + value)) ∷ []
    else if leb value 0xff
    then (low_byte (major * 2 ^ 5 + 24)) ∷ low_byte value ∷ []
    else if leb value 0xffff
    then (low_byte (major * 2 ^ 5 + 25)) ∷ low_byte (value / 2 ^ 8) ∷ low_byte value ∷ []
    else (low_byte (major * 2 ^ 5 + 26)) ∷ be32 value

unfoldable pub write_type_and_value : ℕ → ℕ → Write
write_type_and_value major value = writer_put (header_bytes major value)

unfoldable pub write_map_start : ℕ → Write
write_map_start count = write_type_and_value 5 count

unfoldable pub write_array_start : ℕ → Write
write_array_start count = write_type_and_value 4 count

unfoldable pub write_uint : ℕ → Write
write_uint value = write_type_and_value 0 value

unfoldable pub write_int : ℤ → Write
write_int (pos n) = write_uint n
write_int (negsuc n) = write_type_and_value 1 n

unfoldable pub write_bool : Bool → Write
write_bool value = writer_put ((0xe0 + (if value then 21 else 20)) ∷ [])

-- `a && b`: the second write is made only if the first succeeds.
abbrev and_then : Write → Write → Write
and_then first second w = let (done, w') = first w in if done then second w' else (false, w')

unfoldable pub write_bytes : List ℕ → Write
write_bytes bytes = and_then (write_type_and_value 2 (length bytes)) (writer_put bytes)

unfoldable pub write_text : List ℕ → Write
write_text text = and_then (write_type_and_value 3 (length text)) (writer_put text)

unfoldable pub write_null : Write
write_null = writer_put (0xf6 ∷ [])
