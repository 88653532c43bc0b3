-- ===== src/Cbor/Reader/Bounds.antt =====
-- Where the offset and the views of the reader of src/cbor.c stay.
use meow_key.Prelude.{ℕ, zero, suc, ◌+◌, ◌*◌, ◌%◌, ◌^◌, ◌≤◌, ◌<◌, Bool, true, false, ◌||◌}
use meow_key.Prelude.{List, [], ◌∷◌, ◌≡◌, refl, ◌==◌, drop, length, length-drop, arith}
use meow_key.Prelude.{pos, negsuc, if◌then◌else◌}
use meow_key.Cbor.Reader.{View, Reader, Result, ok, failed, exhausted, M, ◌>>=◌, pure, check}
use meow_key.Cbor.Reader.{read_head, give_up}
use meow_key.Cbor.Reader.{reader_take, read_length, read_initial, skip_items, skip_view}
use meow_key.Cbor.Reader.{skip_simple, skip_body, skip, read_map_start, read_array_start, read_int}
use meow_key.Cbor.Reader.{read_bool, read_bytes, read_text}

-- `size_t` holds the length, and the offset has not passed it.
pub record IsBounded (r : Reader) : Type 0 where
  pub inside : r.offset ≤ r.length
  pub small : r.length < 2 ^ 32

-- The reader is over the same memory as before, and still bounded.
pub record Advanced (r s : Reader) : Type 0 where
  pub buffer : s.buffer ≡ r.buffer
  pub same_length : s.length ≡ r.length
  pub bounded : IsBounded s

abbrev pub Keeps : {A : Type 0} → M A → Type 0
Keeps {A} m = (r : Reader) → IsBounded r → (a : A) (s : Reader) → m r ≡ ok a s → Advanced r s

Keeps-pure : {A : Type 0} (a : A) → Keeps (pure a)
Keeps-pure a r b a' s e = ground arith

Keeps-take : (n : ℕ) → Keeps (reader_take n)
unfolding reader_take
Keeps-take n r b v s e = ground arith

Advanced-trans : (r s t : Reader) → Advanced r s → Advanced s t → Advanced r t
Advanced-trans r s t p q = ground arith

bind_at :
    {A B : Type 0} (f : A → M B) (r : Reader) (x : Result A)
    → ((a : A) (s : Reader) → x ≡ ok a s → Advanced r s)
    → ((a : A) → Keeps (f a))
    → (b : B) (t : Reader)
    → (elim x [ ok a s ↦ f a s | failed ↦ failed | exhausted ↦ exhausted ]) ≡ ok b t
    → Advanced r t
bind_at f r (ok a s) h k b t e =
    let p = h a s refl in Advanced-trans r s t p (k a s p.bounded b t e)
bind_at f r failed h k b t e = cc
bind_at f r exhausted h k b t e = cc

Keeps->>= :
    {A B : Type 0} (m : M A) (f : A → M B) → Keeps m → ((a : A) → Keeps (f a)) → Keeps (m >>= f)
Keeps->>= m f h k r b x t e = bind_at f r (m r) (h r b) k x t e

Keeps-if : {A : Type 0} (b : Bool) (m n : M A) → Keeps m → Keeps n → Keeps (if b then m else n)
Keeps-if true m n h k = h
Keeps-if false m n h k = k

Keeps-give_up : {A : Type 0} → Keeps (give_up {A = A})
Keeps-give_up r b a s e = cc

Keeps-check : (b : Bool) → Keeps (check b)
Keeps-check true = Keeps-pure tt
Keeps-check false = Keeps-give_up

-- Reading a fixed number of bytes and computing with them.
Keeps-read : {A : Type 0} (n : ℕ) (f : View → A) → Keeps (reader_take n >>= λ v. pure (f v))
Keeps-read n f = Keeps->>= _ _ (Keeps-take n) (λ v. Keeps-pure (f v))

Keeps-read_length : (additional : ℕ) → Keeps (read_length additional)
unfolding read_length
Keeps-read_length additional = Keeps-if _ _ _ (Keeps-pure additional) (
    Keeps-if _ _ _ (Keeps-read 1 _)
      (Keeps-if _ _ _ (Keeps-read 2 _) (Keeps-if _ _ _ (Keeps-read 4 _) Keeps-give_up)))

Keeps-read_initial : Keeps read_initial
unfolding read_initial
Keeps-read_initial = Keeps-read 1 _

Keeps-read_head : (major : ℕ) → Keeps (read_head major)
Keeps-read_head major =
    Keeps->>= _ _ Keeps-read_initial
      (λ h. Keeps->>= _ _ (Keeps-check _) (λ u. Keeps-read_length h.1))

Keeps-skip_items : (item : M (Unit {0})) → Keeps item → (n : ℕ) → Keeps (skip_items item n)
unfolding skip_items
Keeps-skip_items item h zero = Keeps-pure tt
Keeps-skip_items item h (suc n) = Keeps->>= _ _ h (λ u. Keeps-skip_items item h n)

Keeps-skip_view : (n : ℕ) → Keeps (skip_view n)
unfolding skip_view
Keeps-skip_view n = Keeps-read n _

Keeps-skip_simple : (additional : ℕ) → Keeps (skip_simple additional)
unfolding skip_simple
Keeps-skip_simple additional = Keeps-if _ _ _ (Keeps-pure tt) (
    Keeps-if _ _ _ (Keeps-skip_view 1)
      (Keeps-if _ _ _ (Keeps-skip_view 2) (Keeps-if _ _ _ (Keeps-skip_view 4) Keeps-give_up)))

Keeps-length_then :
    {A : Type 0} (additional : ℕ) (f : ℕ → M A)
    → ((n : ℕ) → Keeps (f n))
    → Keeps (read_length additional >>= f)
Keeps-length_then additional f h = Keeps->>= _ _ (Keeps-read_length additional) h

Keeps-skip_body :
    (item : M (Unit {0}))
    → Keeps item
    → (major additional : ℕ) → Keeps (skip_body item major additional)
unfolding skip_body
Keeps-skip_body item h major additional =
    Keeps-if (major == 0 || major == 1) _ _ (Keeps-length_then additional _ (λ n. Keeps-pure tt)) (
      Keeps-if (major == 2 || major == 3) _ _ (Keeps-length_then additional _ Keeps-skip_view) (
        Keeps-if (major == 4) _ _ (Keeps-length_then additional _ (Keeps-skip_items item h)) (
          Keeps-if (major == 5) _ _ (Keeps-length_then additional _ pairs)
            (Keeps-if (major == 7) _ _ (Keeps-skip_simple additional) Keeps-give_up))))
  where
    pairs : (n : ℕ) → Keeps (skip_items item (n * 2 % 2 ^ 32))
    pairs n = Keeps-skip_items item h (n * 2 % 2 ^ 32)

Keeps-skip : (fuel : ℕ) → Keeps (skip fuel)
unfolding skip
Keeps-skip zero r b a s e = cc
Keeps-skip (suc fuel) r b a s e =
    Keeps->>= read_initial _ Keeps-read_initial
      (λ h. Keeps-skip_body (skip fuel) (Keeps-skip fuel) h.0 h.1) r b a s e

Keeps-read_int : Keeps read_int
unfolding read_int
Keeps-read_int = Keeps->>= _ _ Keeps-read_initial (λ h. Keeps->>= _ _ (Keeps-check _) (λ u.
    Keeps-length_then _ _ (λ raw. Keeps-if _ _ _ (Keeps-pure (pos raw)) (Keeps-pure (negsuc raw)))))

Keeps-read_bool : Keeps read_bool
unfolding read_bool
Keeps-read_bool = Keeps->>= _ _ Keeps-read_initial (λ h.
    Keeps->>= _ _ (Keeps-check (h.0 == 7)) (λ u.
      Keeps-if (h.1 == 20) _ _ (Keeps-pure false)
        (Keeps-if (h.1 == 21) _ _ (Keeps-pure true) Keeps-give_up)))

Keeps-read_view : (major : ℕ) → Keeps (read_head major >>= reader_take)
Keeps-read_view major = Keeps->>= _ _ (Keeps-read_head major) Keeps-take

-- The calls that a parser makes; a skip with the fuel of its recursion.
pub data Step : Type 0 where
  map_start array_start int bool bytes text : Step
  skipped : ℕ → Step

-- One call, its value forgotten.
unfoldable pub advance : Step → M (Unit {0})
advance map_start = read_map_start >>= λ _. pure tt
advance array_start = read_array_start >>= λ _. pure tt
advance int = read_int >>= λ _. pure tt
advance bool = read_bool >>= λ _. pure tt
advance bytes = read_bytes >>= λ _. pure tt
advance text = read_text >>= λ _. pure tt
advance (skipped fuel) = skip fuel

unfoldable pub advance_all : List Step → M (Unit {0})
advance_all [] = pure tt
advance_all (step ∷ rest) = advance step >>= λ _. advance_all rest

Keeps-forget : {A : Type 0} (m : M A) → Keeps m → Keeps (m >>= λ _. pure tt)
Keeps-forget m h = Keeps->>= m _ h (λ _. Keeps-pure tt)

Keeps-advance : (step : Step) → Keeps (advance step)
unfolding advance read_map_start read_array_start read_bytes read_text
Keeps-advance map_start = Keeps-forget _ (Keeps-read_head 5)
Keeps-advance array_start = Keeps-forget _ (Keeps-read_head 4)
Keeps-advance int = Keeps-forget _ Keeps-read_int
Keeps-advance bool = Keeps-forget _ Keeps-read_bool
Keeps-advance bytes = Keeps-forget _ (Keeps-read_view 2)
Keeps-advance text = Keeps-forget _ (Keeps-read_view 3)
Keeps-advance (skipped fuel) = Keeps-skip fuel

Keeps-advance_all : (steps : List Step) → Keeps (advance_all steps)
unfolding advance_all
Keeps-advance_all [] = Keeps-pure tt
Keeps-advance_all (step ∷ rest) =
    Keeps->>= (advance step) _ (Keeps-advance step) (λ _. Keeps-advance_all rest)

-- No sequence of calls that succeed moves the offset past the length, whatever the input is and
-- however `size_t` wraps, and none touches the memory or the length.
pub advance_all-Advanced :
    (steps : List Step) (r s : Reader) → IsBounded r → advance_all steps r ≡ ok tt s → Advanced r s
advance_all-Advanced steps r s b e = Keeps-advance_all steps r b tt s e

-- The bytes of a view lie inside the reader's memory if the sum of offset and length does not wrap,
-- and the offset moves on by exactly that length.
reader_take_in_bounds :
    (n : ℕ) (r s : Reader) (v : View)
    → IsBounded r
    → r.length ≤ length r.buffer
    → r.offset + n < 2 ^ 32
    → reader_take n r ≡ ok v s
    → (v.length ≡ n) × (n ≤ length v.bytes) × (s.offset ≡ r.offset + n)
unfolding reader_take
reader_take_in_bounds n r s v b h small e = ground (arith, length-drop r.offset r.buffer)

-- If the sum wraps, the test of the reader lets every length through, and the offset moves back.
pub reader_take_wraps :
    (n : ℕ) (r : Reader)
    → IsBounded r
    → n < 2 ^ 32
    → 2 ^ 32 ≤ r.offset + n
    → (s : Reader) × (reader_take n r
        ≡ ok (record { bytes = drop r.offset r.buffer; length = n }) s)
      × (s.offset + 2 ^ 32 ≡ r.offset + n)
      × (s.offset < r.offset)
unfolding reader_take
reader_take_wraps n r b small wraps =
    (record r { offset = (r.offset + n) % 2 ^ 32 }, ground arith, omega arith, omega arith)
