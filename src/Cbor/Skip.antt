-- ===== src/Cbor/Skip.antt =====
-- `meowkey_cbor_skip` of src/cbor.c over every item that the writer can build.
use meow_key.Prelude.{ℕ, zero, suc, ◌+◌, ◌*◌, ◌%◌, ◌^◌, ◌≤◌, ◌<◌, true, false}
use meow_key.Prelude.{◌≡◌, refl, ap, List, [], ◌∷◌, ◌++◌, length, length-append, append_assoc}
use meow_key.Prelude.{arith, pos, negsuc}
use meow_key.Cbor.Reader.{Reader, ok, M, ◌>>=◌, pure, read_initial}
use meow_key.Cbor.Reader.{skip_items, skip_view, skip_simple, skip_body, skip}
use meow_key.Cbor.Writer.{header_bytes}
use meow_key.Cbor.RoundTrip.{Holds, forward, take-Holds, forward-Holds, forward-forward, info}
use meow_key.Cbor.RoundTrip.{ReadsHead, header-ReadsHead, string_lem}
use meow_key.Cbor.Item.{Item, leaf, flag, nothing, byte_string, text_string, array, table}
use meow_key.Cbor.Item.{Items, none, item, Pairs, end, pair, count, count_pairs}
use meow_key.Cbor.Item.{encode, encode_items, encode_pairs, IsSized, AllSized, PairsSized}
use meow_key.Cbor.Item.{depth, depth_items, depth_pairs}

-- `skip` reads what lies ahead as `out`, and goes behind it.
abbrev Passes : M (Unit {0}) → List ℕ → Type 0
Passes m out =
    (rest : List ℕ) (r : Reader) → Holds r (out ++ rest) → m r ≡ ok tt (forward (length out) r)

Passes-nothing : Passes (pure tt) []
Passes-nothing rest r h = ap (ok tt) (ap (λ (k : ℕ). record r { offset = k }) (omega arith))

Passes-then :
    (m k : M (Unit {0})) (a b : List ℕ) → Passes m a → Passes k b → Passes (m >>= λ _. k) (a ++ b)
Passes-then m k a b p q rest r h =
    let split : Holds r (a ++ (b ++ rest)) = rw append_assoc at h in
    let inner = forward-Holds a (b ++ rest) r (length a) split refl in
    ground (
      arith,
      p (b ++ rest) r split,
      q rest (forward (length a) r) inner,
      forward-forward (length a) (length b) r,
      length-append a b,
    )

-- One step of `skip`: what remains once the head is read.
skip-head :
    (fuel major value : ℕ) (rest : List ℕ) (r : Reader)
    → ReadsHead major value rest r
    → skip (suc fuel) r ≡ skip_body (skip fuel) major (info value) (forward 1 r)
unfolding skip
skip-head fuel major value rest r p = ground (arith, p.head)

skip-int :
    (fuel major n : ℕ) → major < 2 → n < 2 ^ 32 → Passes (skip (suc fuel)) (header_bytes major n)
unfolding skip_body
skip-int fuel major n m v rest r h =
    let p = header-ReadsHead major n rest r (omega arith) v h in
    ground (arith, skip-head fuel major n rest r p, p.body)

skip-string :
    (fuel major : ℕ) (l : List ℕ)
    → 2 ≤ major
    → major < 4
    → length l < 2 ^ 32
    → Passes (skip (suc fuel)) (header_bytes major (length l) ++ l)
unfolding skip_body skip_view
skip-string fuel major l lo hi v rest r h =
    let p =
      header-ReadsHead major (length l) (l ++ rest) r (omega arith) v (rw append_assoc at h) in
    ground
      (arith, skip-head fuel major (length l) (l ++ rest) r p, p.body, string_lem major l rest r p)

skip-simple : (fuel v : ℕ) → v < 24 → Passes (skip (suc fuel)) ((7 * 2 ^ 5 + v) ∷ [])
unfolding skip skip_body skip_simple read_initial
skip-simple fuel v small rest r h =
    ground (arith, take-Holds ((7 * 2 ^ 5 + v) ∷ []) rest r 1 h refl)

-- An array or a map, once its items are known to be passed.
skip-container :
    (fuel n : ℕ) (out : List ℕ)
    → n < 2 ^ 32
    → Passes (skip_items (skip fuel) n) out
    → Passes (skip (suc fuel)) (header_bytes 4 n ++ out)
unfolding skip_body
skip-container fuel n out v q rest r h =
    let p = header-ReadsHead 4 n (out ++ rest) r (omega arith) v (rw append_assoc at h) in
    ground (
      arith,
      skip-head fuel 4 n (out ++ rest) r p,
      p.body,
      q rest (forward (length (header_bytes 4 n)) r) p.behind,
      forward-forward (length (header_bytes 4 n)) (length out) r,
      length-append (header_bytes 4 n) out,
    )

skip-table :
    (fuel n : ℕ) (out : List ℕ)
    → n < 2 ^ 31
    → Passes (skip_items (skip fuel) (n * 2)) out
    → Passes (skip (suc fuel)) (header_bytes 5 n ++ out)
unfolding skip_body
skip-table fuel n out v q rest r h =
    let p =
      header-ReadsHead 5 n (out ++ rest) r (omega arith) (omega arith) (rw append_assoc at h) in
    let e : n * 2 % 2 ^ 32 ≡ n * 2 = omega arith in
    ground (
      arith,
      skip-head fuel 5 n (out ++ rest) r p,
      p.body,
      e,
      q rest (forward (length (header_bytes 5 n)) r) p.behind,
      forward-forward (length (header_bytes 5 n)) (length out) r,
      length-append (header_bytes 5 n) out,
    )

-- Two items more for each pair.
twice_suc : (n : ℕ) → suc n * 2 ≡ suc (suc (n * 2))
twice_suc n = omega arith

mutual
  unfolding encode encode_items encode_pairs depth depth_items depth_pairs skip_items

  skips : (x : Item) (fuel : ℕ) → depth x ≤ fuel → IsSized x → Passes (skip fuel) (encode x)
  skips (leaf z) zero d s = absurd (omega arith)
  skips (leaf (pos n)) (suc fuel) d s = skip-int fuel 0 n (omega arith) s
  skips (leaf (negsuc n)) (suc fuel) d s = skip-int fuel 1 n (omega arith) s
  skips (flag b) zero d s = absurd (omega arith)
  skips (flag true) (suc fuel) d s = skip-simple fuel 21 (omega arith)
  skips (flag false) (suc fuel) d s = skip-simple fuel 20 (omega arith)
  skips nothing zero d s = absurd (omega arith)
  skips nothing (suc fuel) d s = skip-simple fuel 22 (omega arith)
  skips (byte_string l) zero d s = absurd (omega arith)
  skips (byte_string l) (suc fuel) d s = skip-string fuel 2 l (omega arith) (omega arith) s
  skips (text_string l) zero d s = absurd (omega arith)
  skips (text_string l) (suc fuel) d s = skip-string fuel 3 l (omega arith) (omega arith) s
  skips (array xs) zero d s = absurd (omega arith)
  skips (array xs) (suc fuel) d s =
      skip-container fuel (count xs) (encode_items xs) s.0 (skips_items xs fuel (omega arith) s.1)
  skips (table ps) zero d s = absurd (omega arith)
  skips (table ps) (suc fuel) d s =
      skip-table fuel (count_pairs ps) (encode_pairs ps) s.0 (skips_pairs ps fuel (omega arith) s.1)

  skips_items :
      (xs : Items) (fuel : ℕ)
      → depth_items xs ≤ fuel
      → AllSized xs
      → Passes (skip_items (skip fuel) (count xs)) (encode_items xs)
  skips_items none fuel d s = Passes-nothing
  skips_items (item x xs) fuel d s =
      Passes-then (skip fuel) (skip_items (skip fuel) (count xs)) (encode x) (encode_items xs)
        (skips x fuel (omega arith) s.0) (skips_items xs fuel (omega arith) s.1)

  skips_pairs :
      (ps : Pairs) (fuel : ℕ)
      → depth_pairs ps ≤ fuel
      → PairsSized ps
      → Passes (skip_items (skip fuel) (count_pairs ps * 2)) (encode_pairs ps)
  skips_pairs end fuel d s = Passes-nothing
  skips_pairs (pair k x ps) fuel d s = rw (twice_suc (count_pairs ps)) (
      Passes-then (skip fuel) (skip_items (skip fuel) (suc (count_pairs ps * 2))) (encode k) _
        (skips k fuel (omega arith) s.0)
        (Passes-then (skip fuel) (skip_items (skip fuel) (count_pairs ps * 2)) (encode x) _
          (skips x fuel (omega arith) s.1) (skips_pairs ps fuel (omega arith) s.2)))

-- With fuel for the nesting of an item, `skip` goes over exactly that item as the writer encodes it,
-- with whatever follows left ahead. Integers, counts and lengths are those that `size_t` can hold.
pub skip-encode :
    (x : Item) (fuel : ℕ) (rest : List ℕ) (r : Reader)
    → depth x ≤ fuel
    → IsSized x
    → Holds r (encode x ++ rest)
    → skip fuel r ≡ ok tt (forward (length (encode x)) r)
skip-encode x fuel rest r d s h = skips x fuel d s rest r h
