-- ===== src/Cbor/RoundTrip.antt =====
-- The reader of src/cbor.c on what its writer leaves: integers, counts, booleans and strings.
use meow_key.Prelude.{ℕ, ◌+◌, ◌*◌, ◌/◌, ◌%◌, ◌^◌, ◌≤◌, ◌<◌, Bool, true, false}
use meow_key.Prelude.{
  ◌≡◌, refl, sym, ◌∙◌, ap, List, [], ◌∷◌, ◌++◌, length, drop, drop-append, drop-drop,
}
use meow_key.Prelude.{length-append, append_assoc, arith, ltb, leb, if◌then◌else◌, ℤ, pos, negsuc}
use meow_key.Cbor.Reader.{View, Reader, ok, reader_take}
use meow_key.Cbor.Reader.{read_length, read_initial, read_map_start, read_array_start, read_int}
use meow_key.Cbor.Reader.{read_bool, read_bytes, read_text}
use meow_key.Cbor.Writer.{header_bytes}
use meow_key.Cbor.Writer.Emits.{map_start, array_start, int, bool, bytes, text, encoding}

-- The reader stands before the bytes `rest`, and its length covers them.
pub record Holds (r : Reader) (rest : List ℕ) : Type 0 where
  pub ahead : drop r.offset r.buffer ≡ rest
  pub room : r.offset + length rest ≤ r.length
  pub small : r.length < 2 ^ 32

abbrev pub forward : ℕ → Reader → Reader
forward n r = record r { offset = r.offset + n }

-- Taking `front` off what lies ahead.
pub take-Holds :
    (front rest : List ℕ) (r : Reader) (n : ℕ)
    → Holds r (front ++ rest)
    → n ≡ length front
    → reader_take n r ≡ ok (record { bytes = front ++ rest; length = n }) (forward n r)
unfolding reader_take
take-Holds front rest r n h e = ground (arith, length-append front rest)

pub forward-Holds :
    (front rest : List ℕ) (r : Reader) (n : ℕ)
    → Holds r (front ++ rest)
    → n ≡ length front
    → Holds (forward n r) rest
forward-Holds front rest r n h e = record {
  ahead = sym (drop-drop n r.offset r.buffer) ∙ ap (drop n) h.ahead ∙ drop-append front rest n e;
  room = let p = h.room in omega (arith, length-append front rest);
  small = h.small;
}

-- The additional information that the writer puts beside the major type.
abbrev pub info : ℕ → ℕ
info value =
    if ltb value 24
    then value
    else if leb value 0xff
    then 24
    else if leb value 0xffff
    then 25
    else 26

-- The first byte of a header, and the bytes behind it.
abbrev first : ℕ → ℕ → ℕ
first major value = major * 2 ^ 5 + info value

abbrev tail : ℕ → List ℕ
tail value =
    if ltb value 24
    then []
    else if leb value 0xff
    then value ∷ []
    else if leb value 0xffff
    then value / 2 ^ 8 ∷ value % 2 ^ 8 ∷ []
    else value / 2 ^ 24 ∷ value / 2 ^ 16 % 2 ^ 8 ∷ value / 2 ^ 8 % 2 ^ 8 ∷ value % 2 ^ 8 ∷ []

header_split :
    (major value : ℕ)
    → major < 8
    → value < 2 ^ 32
    → header_bytes major value ≡ first major value ∷ tail value
unfolding header_bytes
header_split major value m v = ground arith

initial_lem :
    (major value : ℕ) (rest : List ℕ) (r : Reader)
    → major < 8
    → value < 2 ^ 32
    → Holds r (first major value ∷ rest)
    → read_initial r ≡ ok (major, info value) (forward 1 r)
unfolding read_initial
initial_lem major value rest r m v h =
    ground (arith, take-Holds (first major value ∷ []) rest r 1 h refl)

length_lem :
    (value : ℕ) (rest : List ℕ) (r : Reader)
    → value < 2 ^ 32
    → Holds r (tail value ++ rest)
    → read_length (info value) r ≡ ok value (forward (length (tail value)) r)
unfolding read_length
length_lem value rest r v h =
    ground (arith, take-Holds (tail value) rest r (length (tail value)) h refl)

-- Reading back a header: its two parts, and the reader behind it.
pub record ReadsHead (major value : ℕ) (rest : List ℕ) (r : Reader) : Type 0 where
  pub head : read_initial r ≡ ok (major, info value) (forward 1 r)
  pub body :
      read_length (info value) (forward 1 r)
      ≡ ok value (forward (length (header_bytes major value)) r)
  pub behind : Holds (forward (length (header_bytes major value)) r) rest

pub forward-forward : (m n : ℕ) (r : Reader) → forward n (forward m r) ≡ forward (m + n) r
forward-forward m n r = ap (λ (k : ℕ). record r { offset = k }) (omega arith)

pub header-ReadsHead :
    (major value : ℕ) (rest : List ℕ) (r : Reader)
    → major < 8
    → value < 2 ^ 32
    → Holds r (header_bytes major value ++ rest)
    → ReadsHead major value rest r
header-ReadsHead major value rest r m v h = record {
  head = initial_lem major value _ r m v split;
  body =
      length_lem value rest (forward 1 r) v inner
      ∙ ap (ok value)
          (forward-forward 1 (length (tail value)) r ∙ ap (λ (k : ℕ). forward k r) (sym size));
  behind = forward-Holds (header_bytes major value) rest r _ h refl;
}
  where
    split : Holds r (first major value ∷ (tail value ++ rest))
    split = rw (header_split major value m v) at h

    inner : Holds (forward 1 r) (tail value ++ rest)
    inner = forward-Holds (first major value ∷ []) (tail value ++ rest) r 1 split refl

    size : length (header_bytes major value) ≡ 1 + length (tail value)
    size = rw (header_split major value m v) (omega arith)

-- The value of an integer is one that four bytes hold.
abbrev pub Is32Bit : ℤ → Type 0
Is32Bit (pos n) = n < 2 ^ 32
Is32Bit (negsuc n) = n < 2 ^ 32

-- An integer of at most 32 bits is read back as it was written, and what follows it is left.
read_int-encoding :
    (z : ℤ) (rest : List ℕ) (r : Reader)
    → Is32Bit z
    → Holds r (encoding (int z) ++ rest)
    → read_int r ≡ ok z (forward (length (encoding (int z))) r)
unfolding read_int
read_int-encoding (pos n) rest r v h =
    let p = header-ReadsHead 0 n rest r (omega arith) v h in ground (arith, p.head, p.body)
read_int-encoding (negsuc n) rest r v h =
    let p = header-ReadsHead 1 n rest r (omega arith) v h in ground (arith, p.head, p.body)

-- The starts of maps and arrays with counts below 2 ^ 32 are read back with their counts.
read_starts-encoding :
    (count : ℕ) (rest : List ℕ) (r s : Reader)
    → count < 2 ^ 32
    → Holds r (encoding (map_start count) ++ rest)
    → Holds s (encoding (array_start count) ++ rest)
    → (read_map_start r ≡ ok count (forward (length (encoding (map_start count))) r))
      × (read_array_start s ≡ ok count (forward (length (encoding (array_start count))) s))
unfolding read_map_start read_array_start
read_starts-encoding count rest r s v h k =
    let p = header-ReadsHead 5 count rest r (omega arith) v h in
    let q = header-ReadsHead 4 count rest s (omega arith) v k in
    (ground (arith, p.head, p.body), ground (arith, q.head, q.body))

pub read_bool-encoding :
    (b : Bool) (rest : List ℕ) (r : Reader)
    → Holds r (encoding (bool b) ++ rest)
    → read_bool r ≡ ok b (forward 1 r)
unfolding read_bool read_initial
read_bool-encoding true rest r h = ground (arith, take-Holds (0xf5 ∷ []) rest r 1 h refl)
read_bool-encoding false rest r h = ground (arith, take-Holds (0xf4 ∷ []) rest r 1 h refl)

-- The reader and the view that a string read back gives: the view shows exactly the string.
abbrev pub string_view : List ℕ → List ℕ → View
string_view l rest = record { bytes = l ++ rest; length = length l }

pub string_lem :
    (major : ℕ) (l rest : List ℕ) (r : Reader)
    → ReadsHead major (length l) (l ++ rest) r
    → reader_take (length l) (forward (length (header_bytes major (length l))) r)
      ≡ ok (string_view l rest) (forward (length (header_bytes major (length l) ++ l)) r)
string_lem major l rest r p =
    take-Holds l rest _ (length l) p.behind refl
    ∙ ap (ok (string_view l rest)) (
        forward-forward _ (length l) r
        ∙ ap (λ (k : ℕ). forward k r) (sym (length-append (header_bytes major (length l)) l)))

-- A byte string and a text shorter than 2 ^ 32 are read back as views of their bytes, and what follows is left.
pub read_strings-encoding :
    (l rest : List ℕ) (r s : Reader)
    → length l < 2 ^ 32
    → Holds r (encoding (bytes l) ++ rest)
    → Holds s (encoding (text l) ++ rest)
    → (read_bytes r ≡ ok (string_view l rest) (forward (length (encoding (bytes l))) r))
      × (read_text s ≡ ok (string_view l rest) (forward (length (encoding (text l))) s))
unfolding read_bytes read_text
read_strings-encoding l rest r s v h k =
    let p = header-ReadsHead 2 (length l) (l ++ rest) r (omega arith) v (rw append_assoc at h) in
    let q = header-ReadsHead 3 (length l) (l ++ rest) s (omega arith) v (rw append_assoc at k) in
    (
      ground (arith, p.head, p.body, string_lem 2 l rest r p),
      ground (arith, q.head, q.body, string_lem 3 l rest s q),
    )
