-- ===== src/WebAuthn/Ensures.antt =====
-- What a parser that succeeds ensures of its result.
use meow_key.Prelude.{
  ℕ, zero, suc, ◌≤◌, ◌<◌, Bool, true, false, not, if◌then◌else◌, arith, ltb, leb, ◌≡◌, refl,
}
use meow_key.Cbor.Reader.{View, Reader, Result, ok, failed, exhausted, M, ◌>>=◌, pure, check}
use meow_key.WebAuthn.Entries.{loop, Bytes, copy_view_to_string, copy_view_to_bytes}

abbrev pub Post : {A : Type 0} → (A → Type 0) → Result A → Type 0
Post P (ok a r) = P a
Post P failed = Unit
Post P exhausted = Unit

unfoldable pub Ensures : {A : Type 0} → (A → Type 0) → M A → Type 0
Ensures P m = (r : Reader) → Post P (m r)

Post-bind :
    {A B : Type 0} (Q : A → Type 0) (P : B → Type 0) (x : Result A) (f : A → M B)
    → Post Q x
    → ((a : A) → Q a → Ensures P (f a))
    → Post P
        (elim x as (λ y. Result B) [ ok a r' ↦ f a r' | failed ↦ failed | exhausted ↦ exhausted ])
unfolding Ensures
Post-bind Q P (ok a r) f h k = k a h r
Post-bind Q P failed f h k = tt
Post-bind Q P exhausted f h k = tt

pub Ensures-bind :
    {A B : Type 0} (Q : A → Type 0) (P : B → Type 0) (m : M A) (f : A → M B)
    → Ensures Q m
    → ((a : A) → Q a → Ensures P (f a))
    → Ensures P (m >>= f)
unfolding Ensures
Ensures-bind Q P m f h k r = Post-bind Q P (m r) f (h r) k

Post-any : {A : Type 0} (x : Result A) → Post (λ (a : A). Unit {0}) x
Post-any (ok a r) = tt
Post-any failed = tt
Post-any exhausted = tt

-- Of a first step nothing need be known.
pub Ensures-then :
    {A B : Type 0} (P : B → Type 0) (m : M A) (f : A → M B)
    → ((a : A) → Ensures P (f a))
    → Ensures P (m >>= f)
unfolding Ensures
Ensures-then P m f k = Ensures-bind (λ a. Unit {0}) P m f (λ r. Post-any (m r)) (λ a u. k a)

pub Ensures-pure : {A : Type 0} (P : A → Type 0) (a : A) → P a → Ensures P (pure a)
unfolding Ensures
Ensures-pure P a h r = h

pub Ensures-if :
    {A : Type 0} (P : A → Type 0) (b : Bool) (x y : M A)
    → Ensures P x
    → Ensures P y
    → Ensures P (if b then x else y)
Ensures-if P true x y h k = h
Ensures-if P false x y h k = k

pub Ensures-check : (b : Bool) → Ensures (λ u. b ≡ true) (check b)
unfolding Ensures
Ensures-check true r = refl
Ensures-check false r = tt

pub Ensures-loop :
    {A : Type 0} (P : A → Type 0) (body : A → M A)
    → ((a : A) → P a → Ensures P (body a))
    → (n : ℕ) (a : A) → P a
    → Ensures P (loop body n a)
unfolding loop
Ensures-loop P body keeps zero a h = Ensures-pure P a h
Ensures-loop P body keeps (suc n) a h =
    Ensures-bind P P (body a) (loop body n) (keeps a h) (λ b k. Ensures-loop P body keeps n b k)

pub Ensures-string :
    (capacity : ℕ) (v : View)
    → Ensures (λ (b : Bytes). b.size < capacity) (copy_view_to_string capacity v)
unfolding copy_view_to_string
Ensures-string capacity v =
    Ensures-bind (λ u. not (leb capacity v.length) ≡ true) (λ b. b.size < capacity) _ _
      (Ensures-check (not (leb capacity v.length)))
      (λ u h. Ensures-pure (λ b. b.size < capacity) _ (ground arith))

pub Ensures-bytes :
    (capacity : ℕ) (v : View)
    → Ensures (λ (b : Bytes). b.size ≤ capacity) (copy_view_to_bytes capacity v)
unfolding copy_view_to_bytes
Ensures-bytes capacity v =
    Ensures-bind (λ u. not (ltb capacity v.length) ≡ true) (λ b. b.size ≤ capacity) _ _
      (Ensures-check (not (ltb capacity v.length)))
      (λ u h. Ensures-pure (λ b. b.size ≤ capacity) _ (ground arith))
