-- ===== src/Cbor/Item.antt =====
-- Whole CBOR items, as nested calls of the writer of src/cbor.c.
use Prim.Native.Nat.{max}
use meow_key.Prelude.{ℕ, suc, ◌<◌, ◌^◌, Bool, List, [], ◌++◌, length, ℤ}
use meow_key.Cbor.Writer.Emits.{map_start, array_start, int, bool, bytes, text, null, encoding}
use meow_key.Cbor.RoundTrip.{Is32Bit}

-- A whole item, as nested calls of the writer.
mutual
  pub data Item : Type 0 where
    leaf : ℤ → Item
    flag : Bool → Item
    nothing : Item
    byte_string text_string : List ℕ → Item
    array : Items → Item
    table : Pairs → Item

  pub data Items : Type 0 where
    none : Items
    item : Item → Items → Items

  pub data Pairs : Type 0 where
    end : Pairs
    pair : Item → Item → Pairs → Pairs

abbrev pub count : Items → ℕ
count none = 0
count (item x xs) = suc (count xs)

abbrev pub count_pairs : Pairs → ℕ
count_pairs end = 0
count_pairs (pair k x ps) = suc (count_pairs ps)

-- What the writer leaves for an item.
unfoldable mutual
  pub encode : Item → List ℕ
  encode (leaf z) = encoding (int z)
  encode (flag b) = encoding (bool b)
  encode nothing = encoding null
  encode (byte_string l) = encoding (bytes l)
  encode (text_string l) = encoding (text l)
  encode (array xs) = encoding (array_start (count xs)) ++ encode_items xs
  encode (table ps) = encoding (map_start (count_pairs ps)) ++ encode_pairs ps

  pub encode_items : Items → List ℕ
  encode_items none = []
  encode_items (item x xs) = encode x ++ encode_items xs

  pub encode_pairs : Pairs → List ℕ
  encode_pairs end = []
  encode_pairs (pair k x ps) = encode k ++ (encode x ++ encode_pairs ps)

-- Integers of 32 bits, and counts and lengths that `size_t` can hold (twice the pairs of a map).
abbrev mutual
  pub IsSized : Item → Type 0
  IsSized (leaf z) = Is32Bit z
  IsSized (flag b) = Unit {0}
  IsSized nothing = Unit {0}
  IsSized (byte_string l) = length l < 2 ^ 32
  IsSized (text_string l) = length l < 2 ^ 32
  IsSized (array xs) = (count xs < 2 ^ 32) × AllSized xs
  IsSized (table ps) = (count_pairs ps < 2 ^ 31) × PairsSized ps

  pub AllSized : Items → Type 0
  AllSized none = Unit {0}
  AllSized (item x xs) = IsSized x × AllSized xs

  pub PairsSized : Pairs → Type 0
  PairsSized end = Unit {0}
  PairsSized (pair k x ps) = IsSized k × IsSized x × PairsSized ps

-- How deep arrays and maps nest: the fuel that `skip` needs.
unfoldable mutual
  pub depth : Item → ℕ
  depth (leaf z) = 1
  depth (flag b) = 1
  depth nothing = 1
  depth (byte_string l) = 1
  depth (text_string l) = 1
  depth (array xs) = suc (depth_items xs)
  depth (table ps) = suc (depth_pairs ps)

  pub depth_items : Items → ℕ
  depth_items none = 0
  depth_items (item x xs) = max (depth x) (depth_items xs)

  pub depth_pairs : Pairs → ℕ
  depth_pairs end = 0
  depth_pairs (pair k x ps) = max (depth k) (max (depth x) (depth_pairs ps))
