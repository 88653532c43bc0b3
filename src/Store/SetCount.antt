-- ===== src/Store/SetCount.antt =====
-- The writing of a signature count into a slot of src/credential_store.c.
use meow_key.Prelude.{
  ℕ, zero, suc, ◌<◌, true, List, [], ◌∷◌, ◌≡◌, refl, ap, ◌∙◌, length, get_or, get_or-set, set,
}
use meow_key.Store.Slot.{Slot, blank, slot_is_valid}
use meow_key.Store.Machine.{sign_count_set}

set-set : (xs : List Slot) (i : ℕ) (v w : Slot) → set (set xs i v) i w ≡ set xs i w
set-set [] i v w = refl
set-set (x ∷ xs) zero v w = refl
set-set (x ∷ xs) (suc i) v w = ap (λ t. x ∷ t) (set-set xs i v w)

pub sign_count_set-twice :
    (i count : ℕ) (slots : List Slot)
    → i < length slots
    → sign_count_set i count (sign_count_set i count slots) ≡ sign_count_set i count slots
sign_count_set-twice i count slots h =
    let s : Slot = record (get_or slots i blank) { sign_count = count } in
    set-set slots i s _
    ∙ ap (λ (t : Slot). set slots i (record t { sign_count = count }))
        (get_or-set slots i s blank h)

pub valid-set :
    (i count : ℕ) (slots : List Slot)
    → i < length slots
    → slot_is_valid (get_or slots i blank) ≡ true
    → slot_is_valid (get_or (sign_count_set i count slots) i blank) ≡ true
unfolding slot_is_valid
valid-set i count slots h v =
    let s : Slot = record (get_or slots i blank) { sign_count = count } in
    ap slot_is_valid (get_or-set slots i s blank h) ∙ v
