-- ===== src/Store/Count.antt =====
-- The count of credentials in src/credential_store.c.
use meow_key.Prelude.{ℕ, zero, suc, ◌+◌, ◌≤◌, ◌<◌, ◌^◌, true, false, List, [], ◌∷◌}
use meow_key.Prelude.{◌≡◌, refl, ap, arith}
use meow_key.Prelude.{length, length-set, get_or, set, if◌then◌else◌}
use meow_key.Store.Slot.{Slot, blank, slot_is_valid}
use meow_key.Store.Slot.{blank-invalid}
use meow_key.Store.Slots.{Store, valid_count, slot_is_taken, all_blank}

-- What a slot adds to the count.
unfoldable pub credits : Slot → ℕ
credits slot = if slot_is_valid slot then 1 else 0

pub valid_count-set :
    (slots : List Slot) (i : ℕ) (slot : Slot)
    → i < length slots
    → valid_count (set slots i slot) + credits (get_or slots i blank)
      ≡ valid_count slots + credits slot
unfolding valid_count credits
valid_count-set [] i slot h = absurd (omega arith)
valid_count-set (s ∷ rest) zero slot h = ground arith
valid_count-set (s ∷ rest) (suc i) slot h =
    ground (arith, valid_count-set rest i slot (omega arith))

pub valid_count-length : (slots : List Slot) → valid_count slots ≤ length slots
unfolding valid_count
valid_count-length [] = omega arith
valid_count-length (s ∷ rest) = ground (arith, valid_count-length rest)

pub valid_count-all_blank : (slots : List Slot) → valid_count (all_blank slots) ≡ 0
unfolding valid_count all_blank
valid_count-all_blank [] = refl
valid_count-all_blank (s ∷ rest) = rw (blank-invalid, valid_count-all_blank rest) refl

pub length-all_blank : (slots : List Slot) → length (all_blank slots) ≡ length slots
unfolding all_blank
length-all_blank [] = refl
length-all_blank (s ∷ rest) = ap suc (length-all_blank rest)

-- The count is the number of valid slots, of which there are fewer than 2 ^ 32.
pub record IsCounted (st : Store) : Type 0 where
  pub counted : st.credential_count ≡ valid_count st.slots
  pub small : length st.slots < 2 ^ 32

pub slot_is_taken-inside :
    (i : ℕ) (st : Store)
    → slot_is_taken i st ≡ true
    → (i < length st.slots) × (slot_is_valid (get_or st.slots i blank) ≡ true)
unfolding slot_is_taken
slot_is_taken-inside i st e = ground (arith, e)

-- The count after a slot has been written.
pub set-IsCounted :
    (st : Store) (i count : ℕ) (slot : Slot)
    → IsCounted st
    → i < length st.slots
    → count + credits (get_or st.slots i blank) ≡ st.credential_count + credits slot
    → IsCounted (record { slots = set st.slots i slot; credential_count = count })
set-IsCounted st i count slot ok h e =
    let c = ok.counted in
    let l = ok.small in
    record {
      counted = omega (arith, valid_count-set st.slots i slot h);
      small = omega (arith, length-set st.slots i slot);
    }

pub credits-valid : (slot : Slot) → slot_is_valid slot ≡ true → credits slot ≡ 1
unfolding credits
credits-valid slot e = rw e refl

pub credits-invalid : (slot : Slot) → slot_is_valid slot ≡ false → credits slot ≡ 0
unfolding credits
credits-invalid slot e = rw e refl

-- A slot that counts makes the count positive.
pub valid_count-positive :
    (slots : List Slot) (i : ℕ)
    → i < length slots
    → slot_is_valid (get_or slots i blank) ≡ true
    → 0 < valid_count slots
valid_count-positive slots i h v = omega (
  arith,
  valid_count-set slots i blank h,
  credits-valid (get_or slots i blank) v,
  credits-invalid blank blank-invalid,
)
