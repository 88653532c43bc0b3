-- ===== src/Tests/Cbor.antt =====
-- src/cbor.c at concrete inputs.
use meow_key.Prelude.{ℕ, ◌≡◌, ◌+◌, ◌≤◌, ◌<◌, ◌^◌, false, List, [], ◌∷◌, ◌++◌, refl}
use meow_key.Prelude.{arith, pos, negsuc, length}
use meow_key.Cbor.Reader.{View, Reader, ok, exhausted, reader_take, read_map_start, read_int}
use meow_key.Cbor.Reader.{read_bytes, read_text, skip, read_initial, read_length}
use meow_key.Cbor.Reader.Bounds.{
  Advanced, advance, advance_all, map_start, int, advance_all-Advanced,
}
use meow_key.Cbor.Reader.Bounds.{reader_take_wraps}
use meow_key.Cbor.Reader.Rewind.{rewinding, skip-rewinding}
use meow_key.Cbor.Writer.{writer_init, header_bytes}
use meow_key.Cbor.Writer.Emits.{
  Call, encoding, encodings, perform_all, WroteAll, perform_all-WroteAll,
}
use meow_key.Cbor.Writer.Emits
use meow_key.Cbor.Reader.Bounds
use meow_key.Cbor.RoundTrip.{Holds, forward, string_view, read_strings-encoding}
use meow_key.Cbor.Item.{Item, leaf, array, none, item, encode, depth}
use meow_key.Cbor.Skip.{skip-encode}

-- The map {1: 2}, followed by nothing.
abbrev one_pair : ℕ → Reader
one_pair n = record { buffer = 0xa1 ∷ 1 ∷ 2 ∷ []; length = 3; offset = n }

one_pair-IsBounded : Bounds.IsBounded (one_pair 0)
one_pair-IsBounded = record { inside = omega arith; small = omega arith }

advances : advance_all (map_start ∷ int ∷ int ∷ []) (one_pair 0) ≡ ok tt (one_pair 3)
unfolding advance_all advance read_map_start read_int read_initial read_length reader_take
advances = refl

advance_all-Advanced_example : Advanced (one_pair 0) (one_pair 3)
advance_all-Advanced_example =
    advance_all-Advanced (map_start ∷ int ∷ int ∷ []) (one_pair 0) (one_pair 3) one_pair-IsBounded
      advances

abbrev view : View
view = record { bytes = 0xa1 ∷ 1 ∷ 2 ∷ []; length = 2 }

taken : reader_take 2 (one_pair 0) ≡ ok view (one_pair 2)
unfolding reader_take
taken = refl

one_pair_2-IsBounded : Bounds.IsBounded (one_pair 2)
one_pair_2-IsBounded = record { inside = omega arith; small = omega arith }

reader_take_wraps_example :
    (s : Reader) × (reader_take 0xfffffffe (one_pair 2)
      ≡ ok (record { bytes = 2 ∷ []; length = 0xfffffffe }) s)
    × (s.offset + 2 ^ 32 ≡ 2 + 0xfffffffe)
    × (s.offset < 2)
reader_take_wraps_example =
    reader_take_wraps 0xfffffffe (one_pair 2) one_pair_2-IsBounded (omega arith) (omega arith)

skip-rewinding_example : skip 100 (rewinding (0 ∷ []) 7) ≡ exhausted
skip-rewinding_example = skip-rewinding 100 (0 ∷ []) 7 (omega arith) (omega arith)

abbrev writes : List Call
writes = Emits.map_start 1 ∷ Emits.int (pos 3) ∷ Emits.bytes (1 ∷ 2 ∷ 3 ∷ []) ∷ []

writer-IsBounded : Emits.IsBounded (writer_init 64)
unfolding writer_init
writer-IsBounded = record { counted = refl; inside = omega arith; small = omega arith }

fresh : (writer_init 64).failed ≡ false
unfolding writer_init
fresh = refl

perform_all-WroteAll_example :
    WroteAll (writer_init 64) (encodings writes) (perform_all writes (writer_init 64))
perform_all-WroteAll_example =
    perform_all-WroteAll writes (writer_init 64) writer-IsBounded fresh
      (tt, (tt, (omega arith, tt)))

-- A reader before the encoding of `out`, whose length has been computed.
abbrev before : List ℕ → ℕ → Reader
before out n = record { buffer = out; length = n; offset = 0 }

int-Holds :
    Holds (before (encoding (Emits.int (negsuc 499))) 3) (encoding (Emits.int (negsuc 499)) ++ [])
unfolding header_bytes
int-Holds = record { ahead = refl; room = omega arith; small = omega arith }

map-Holds : Holds (before (encoding (Emits.map_start 30)) 2) (encoding (Emits.map_start 30) ++ [])
unfolding header_bytes
map-Holds = record { ahead = refl; room = omega arith; small = omega arith }

array-Holds :
    Holds (before (encoding (Emits.array_start 30)) 2) (encoding (Emits.array_start 30) ++ [])
unfolding header_bytes
array-Holds = record { ahead = refl; room = omega arith; small = omega arith }

abbrev word : List ℕ
word = 0x75 ∷ 0x73 ∷ 0x62 ∷ []

bytes-Holds : Holds (before (encoding (Emits.bytes word)) 4) (encoding (Emits.bytes word) ++ [])
unfolding header_bytes
bytes-Holds = record { ahead = refl; room = omega arith; small = omega arith }

text-Holds : Holds (before (encoding (Emits.text word)) 4) (encoding (Emits.text word) ++ [])
unfolding header_bytes
text-Holds = record { ahead = refl; room = omega arith; small = omega arith }

read_strings-encoding_example :
    let b = encoding (Emits.bytes word) in
    let t = encoding (Emits.text word) in
    (read_bytes (before b 4) ≡ ok (string_view word []) (forward (length b) (before b 4)))
    × (read_text (before t 4) ≡ ok (string_view word []) (forward (length t) (before t 4)))
read_strings-encoding_example =
    read_strings-encoding word [] (before (encoding (Emits.bytes word)) 4)
      (before (encoding (Emits.text word)) 4) (omega arith) bytes-Holds text-Holds

-- The array [7, 300], with another byte behind it.
abbrev two_items : Item
two_items = array (item (leaf (pos 7)) (item (leaf (pos 300)) none))

two_items-Holds : Holds (before (encode two_items ++ (9 ∷ [])) 6) (encode two_items ++ (9 ∷ []))
unfolding encode header_bytes
two_items-Holds = record { ahead = refl; room = omega arith; small = omega arith }

two_items-depth : depth two_items ≤ 2
unfolding depth
two_items-depth = omega arith

skip-encode_example :
    let r = before (encode two_items ++ (9 ∷ [])) 6 in
    skip 2 r ≡ ok tt (forward (length (encode two_items)) r)
skip-encode_example =
    skip-encode two_items 2 (9 ∷ []) (before (encode two_items ++ (9 ∷ [])) 6) two_items-depth
      (omega arith, (omega arith, (omega arith, tt))) two_items-Holds
