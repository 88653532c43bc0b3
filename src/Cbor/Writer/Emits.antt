-- ===== src/Cbor/Writer/Emits.antt =====
-- What a sequence of writes leaves in the buffer.
use meow_key.Prelude.{ℕ, ◌+◌, ◌≤◌, ◌<◌, ◌^◌, Bool, true, false, List, [], ◌∷◌, ◌++◌, ◌≡◌, refl}
use meow_key.Prelude.{length, length-append, append_assoc, append-nil, arith, if◌then◌else◌, All}
use meow_key.Prelude.{ℤ, pos, negsuc, Bool-cases, inl, inr, sym}
use meow_key.Cbor.Writer.{Writer, Write, writer_put, header_bytes, and_then}
use meow_key.Cbor.Writer.{write_type_and_value, write_map_start, write_array_start, write_uint}
use meow_key.Cbor.Writer.{write_int, write_bool, write_bytes, write_text, write_null}

-- The calls that the builders of responses make.
pub data Call : Type 0 where
  map_start array_start uint : ℕ → Call
  int : ℤ → Call
  bool : Bool → Call
  bytes text : List ℕ → Call
  null : Call

abbrev pub perform : Call → Write
perform (map_start n) = write_map_start n
perform (array_start n) = write_array_start n
perform (uint n) = write_uint n
perform (int z) = write_int z
perform (bool b) = write_bool b
perform (bytes l) = write_bytes l
perform (text l) = write_text l
perform null = write_null

-- The encoding of one call, by itself.
abbrev pub encoding : Call → List ℕ
encoding (map_start n) = header_bytes 5 n
encoding (array_start n) = header_bytes 4 n
encoding (uint n) = header_bytes 0 n
encoding (int (pos n)) = header_bytes 0 n
encoding (int (negsuc n)) = header_bytes 1 n
encoding (bool true) = 0xf5 ∷ []
encoding (bool false) = 0xf4 ∷ []
encoding (bytes l) = header_bytes 2 (length l) ++ l
encoding (text l) = header_bytes 3 (length l) ++ l
encoding null = 0xf6 ∷ []

abbrev pub perform_all : List Call → Writer → Writer
perform_all [] w = w
perform_all (c ∷ cs) w = perform_all cs (perform c w).1

abbrev pub encodings : List Call → List ℕ
encodings [] = []
encodings (c ∷ cs) = encoding c ++ encodings cs

-- The writer keeps to its buffer, which `size_t` can measure.
pub record IsBounded (w : Writer) : Type 0 where
  pub counted : w.length ≡ length w.bytes
  pub inside : w.length ≤ w.capacity
  pub small : w.capacity < 2 ^ 31

-- What one write of `out` does to a writer that has not failed.
pub record Wrote (w : Writer) (out : List ℕ) (done : Bool) (v : Writer) : Type 0 where
  pub bounded : IsBounded v
  pub capacity : v.capacity ≡ w.capacity
  pub fits :
      v.failed ≡ false → (length w.bytes + length out ≤ w.capacity) × (v.bytes ≡ w.bytes ++ out)
  pub full : v.failed ≡ true → w.capacity < length w.bytes + length out
  pub told : done ≡ (if v.failed then false else true)

put-Wrote :
    (out : List ℕ) (w : Writer)
    → IsBounded w
    → w.failed ≡ false
    → length out < 2 ^ 31
    → let (done, v) = writer_put out w in Wrote w out done v
unfolding writer_put
put-Wrote out w b f small = ground (arith, length-append w.bytes out)

length-header : (major value : ℕ) → length (header_bytes major value) ≤ 5
unfolding header_bytes
length-header major value = ground arith

and_then-Wrote :
    (a b : List ℕ) (w : Writer)
    → IsBounded w
    → w.failed ≡ false
    → length a < 2 ^ 31
    → length b < 2 ^ 31
    → let (done, v) = and_then (writer_put a) (writer_put b) w in Wrote w (a ++ b) done v
unfolding writer_put
and_then-Wrote a b w h f sa sb = ground (
  arith,
  length-append a b,
  length-append w.bytes a,
  length-append (w.bytes ++ a) b,
  append_assoc w.bytes a b,
)

-- The text or byte string that a call copies is shorter than 2 ^ 31.
abbrev pub IsSmall : Call → Type 0
IsSmall (bytes l) = length l < 2 ^ 31
IsSmall (text l) = length l < 2 ^ 31
IsSmall c = Unit {0}

perform-Wrote :
    (c : Call) (w : Writer)
    → IsBounded w
    → w.failed ≡ false
    → IsSmall c
    → let (done, v) = perform c w in Wrote w (encoding c) done v
unfolding write_map_start write_array_start write_uint write_int write_bool write_bytes write_text
    write_null write_type_and_value
perform-Wrote (map_start n) w b f s = put-Wrote _ w b f (omega (arith, length-header 5 n))
perform-Wrote (array_start n) w b f s = put-Wrote _ w b f (omega (arith, length-header 4 n))
perform-Wrote (uint n) w b f s = put-Wrote _ w b f (omega (arith, length-header 0 n))
perform-Wrote (int (pos n)) w b f s = put-Wrote _ w b f (omega (arith, length-header 0 n))
perform-Wrote (int (negsuc n)) w b f s = put-Wrote _ w b f (omega (arith, length-header 1 n))
perform-Wrote (bool true) w b f s = put-Wrote _ w b f (omega arith)
perform-Wrote (bool false) w b f s = put-Wrote _ w b f (omega arith)
perform-Wrote (bytes l) w b f s =
    and_then-Wrote _ l w b f (omega (arith, length-header 2 (length l))) s
perform-Wrote (text l) w b f s =
    and_then-Wrote _ l w b f (omega (arith, length-header 3 (length l))) s
perform-Wrote null w b f s = put-Wrote _ w b f (omega arith)

-- A failed writer is left as it is.
put-failed : (out : List ℕ) (w : Writer) → w.failed ≡ true → writer_put out w ≡ (false, w)
unfolding writer_put
put-failed out w f = ground arith

perform-failed : (c : Call) (w : Writer) → w.failed ≡ true → perform c w ≡ (false, w)
unfolding write_map_start write_array_start write_uint write_int write_bool write_bytes write_text
    write_null write_type_and_value
perform-failed (map_start n) w f = put-failed _ w f
perform-failed (array_start n) w f = put-failed _ w f
perform-failed (uint n) w f = put-failed _ w f
perform-failed (int (pos n)) w f = put-failed _ w f
perform-failed (int (negsuc n)) w f = put-failed _ w f
perform-failed (bool v) w f = put-failed _ w f
perform-failed (bytes l) w f = rw (put-failed _ w f)
perform-failed (text l) w f = rw (put-failed _ w f)
perform-failed null w f = put-failed _ w f

perform_all-failed : (cs : List Call) (w : Writer) → w.failed ≡ true → perform_all cs w ≡ w
perform_all-failed [] w f = refl
perform_all-failed (c ∷ cs) w f = rw (perform-failed c w f) (perform_all-failed cs w f)

-- What a sequence of writes has done: it keeps to the buffer, it fails exactly when the encodings
-- do not fit, and otherwise it has appended all of them.
pub record WroteAll (w : Writer) (out : List ℕ) (v : Writer) : Type 0 where
  pub bounded : IsBounded v
  pub fits :
      v.failed ≡ false → (length w.bytes + length out ≤ w.capacity) × (v.bytes ≡ w.bytes ++ out)
  pub full : v.failed ≡ true → w.capacity < length w.bytes + length out

WroteAll-then :
    (w u v : Writer) (out rest : List ℕ) (done : Bool)
    → Wrote w out done u
    → u.failed ≡ false
    → WroteAll u rest v
    → WroteAll w (out ++ rest) v
WroteAll-then w u v out rest done p f q =
    ground (arith, length-append out rest, length-append w.bytes out, append_assoc w.bytes out rest)

WroteAll-stop :
    (w v : Writer) (out rest : List ℕ) (done : Bool)
    → Wrote w out done v
    → v.failed ≡ true
    → WroteAll w (out ++ rest) v
WroteAll-stop w v out rest done p f = ground (arith, length-append out rest)

-- Any sequence of writes to a bounded writer that has not failed, with strings shorter than 2 ^ 31,
-- stays within the buffer, leaves the encodings in order
-- behind what was there if they fit, and reports failure if and only if they do not.
pub perform_all-WroteAll :
    (cs : List Call) (w : Writer)
    → IsBounded w
    → w.failed ≡ false
    → All IsSmall cs
    → WroteAll w (encodings cs) (perform_all cs w)
perform_all-WroteAll [] w b f s = record {
  bounded = b;
  fits = λ e. (omega arith, sym (append-nil w.bytes));
  full = λ e. cc;
}
perform_all-WroteAll (c ∷ cs) w b f s =
    let p = perform-Wrote c w b f s.0 in
    elim (Bool-cases (perform c w).1.failed) [
      | inl e ↦ rw (perform_all-failed cs (perform c w).1 e) (WroteAll-stop w _ _ _ _ p e)
      | inr e ↦
          WroteAll-then w (perform c w).1 _ (encoding c) _ (perform c w).0 p e
            (perform_all-WroteAll cs (perform c w).1 p.bounded e s.1)
    ]
