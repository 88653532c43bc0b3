-- ===== src/Store/Steps.antt =====
-- Sequences of operations of src/credential_store.c.
use meow_key.Prelude.{ℕ, ◌<◌, Bool, true, false, not, List, [], ◌∷◌}
use meow_key.Prelude.{some, ◌≡◌, refl, sym, ap, ◌∙◌, arith, Bool-cases, Option-cases, inl, inr, All}
use meow_key.Prelude.{length, length-set, get_or, get_or-set, set, ltb, add32, sub32, if◌then◌else◌}
use meow_key.Store.Slot.{
  CredentialRecord, Slot, blank, slot_is_valid, copy_record_to_slot, IsStorable,
}
use meow_key.Store.Slot.{copy_record_to_slot-valid, blank-invalid}
use meow_key.Store.Slots.{Store, first_slot, slot_is_taken}
use meow_key.Store.Slots.{store_add_credential, store_update_sign_count}
use meow_key.Store.Slots.{store_delete_credential_by_slot, store_clear_credentials}
use meow_key.Store.Search.{first_slot-some}
use meow_key.Store.Count.{
  IsCounted, credits, set-IsCounted, credits-valid, credits-invalid, slot_is_taken-inside,
}
use meow_key.Store.Count.{
  valid_count-set, valid_count-positive, valid_count-all_blank, length-all_blank,
  valid_count-length,
}

-- An operation, with whether its commit goes through.
pub data Operation : Type 0 where
  add : Bool → CredentialRecord → Operation
  update : Bool → ℕ → ℕ → Operation
  delete : Bool → ℕ → Operation
  clear : Bool → Operation

unfoldable pub operate : Operation → Store → Store
operate (add commits r) st = (store_add_credential commits r st).1
operate (update appends i count) st = (store_update_sign_count appends i count st).1
operate (delete commits i) st = (store_delete_credential_by_slot commits i st).1
operate (clear commits) st = (store_clear_credentials commits st).1

unfoldable pub operate_all : List Operation → Store → Store
operate_all [] st = st
operate_all (o ∷ rest) st = operate_all rest (operate o st)

-- The records that are added fit a slot.
unfoldable pub IsStorableIn : Operation → Type 0
IsStorableIn (add commits r) = IsStorable r
IsStorableIn (update appends i count) = Unit
IsStorableIn (delete commits i) = Unit
IsStorableIn (clear commits) = Unit

free-invalid : (b : Bool) → not b ≡ true → b ≡ false
free-invalid true e = absurd cc
free-invalid false e = refl

pub add_free :
    (st : Store) (i : ℕ) (slot : Slot)
    → first_slot (λ s. not (slot_is_valid s)) st.slots 0 ≡ some (i, slot)
    → (i < length st.slots) × (slot_is_valid (get_or st.slots i blank) ≡ false)
add_free st i slot e =
    let f = first_slot-some (λ s. not (slot_is_valid s)) st.slots i slot e in
    (f.inside, ap slot_is_valid f.there ∙ free-invalid (slot_is_valid slot) f.passes)

picked :
    {A : Type 0} (x y : A × Store) (c : Bool)
    → IsCounted x.1
    → IsCounted y.1
    → IsCounted (if◌then◌else◌ {A = A × Store} c x y).1
picked x y true h k = h
picked x y false h k = k

add-IsCounted :
    (commits : Bool) (r : CredentialRecord) (st : Store)
    → IsStorable r
    → IsCounted st
    → IsCounted (store_add_credential commits r st).1
unfolding store_add_credential
add-IsCounted commits r st fits ok =
    elim (Option-cases (first_slot (λ s. not (slot_is_valid s)) st.slots 0)) [
      | inl e ↦ rw (e, store_add_credential) ok
      | inr ((i, slot), e) ↦
          let (h, free) = add_free st i slot e in
          let new = copy_record_to_slot r in
          let stored = credits-valid new (copy_record_to_slot-valid r fits) in
          let gone = credits-invalid blank blank-invalid in
          let before = credits-invalid (get_or st.slots i blank) free in
          let c = ok.counted in
          let l = ok.small in
          let less = valid_count-length (set st.slots i new) in
          let long = length-set st.slots i new in
          let grown = valid_count-set st.slots i new h in
          let added : IsCounted (record {
            slots = set st.slots i new;
            credential_count = add32 st.credential_count 1;
          }) =
            set-IsCounted st i (add32 st.credential_count 1) new ok h (omega arith) in
          let seen = get_or-set st.slots i new blank h in
          rw (e, store_add_credential)
            (picked _ _ commits added (
              set-IsCounted _ i (sub32 (add32 st.credential_count 1) 1) blank added (omega arith)
                (rw seen (omega arith))))
    ]

delete-IsCounted :
    (commits : Bool) (i : ℕ) (st : Store)
    → IsCounted st
    → IsCounted (store_delete_credential_by_slot commits i st).1
unfolding store_delete_credential_by_slot
delete-IsCounted commits i st ok = elim (Bool-cases (slot_is_taken i st)) [
  | inr e ↦ rw (e, store_delete_credential_by_slot) ok
  | inl e ↦
      let (h, valid) = slot_is_taken-inside i st e in
      let c = ok.counted in
      let l = ok.small in
      let taken = credits-valid (get_or st.slots i blank) valid in
      let gone = credits-invalid blank blank-invalid in
      let long = length-set st.slots i blank in
      let less = valid_count-length st.slots in
      let positive = valid_count-positive st.slots i h valid in
      let some_left : ltb 0 st.credential_count ≡ true = ground arith in
      let removed : IsCounted (record {
        slots = set st.slots i blank;
        credential_count = sub32 st.credential_count 1;
      }) =
        set-IsCounted st i (sub32 st.credential_count 1) blank ok h (omega arith) in
      let seen = get_or-set st.slots i blank blank h in
      rw (e, some_left, store_delete_credential_by_slot)
        (picked _ _ commits removed (
          set-IsCounted _ i st.credential_count (get_or st.slots i blank) removed (omega arith)
            (rw seen (omega arith))))
]

credits-sign_count : (slot : Slot) (n : ℕ) → credits (record slot { sign_count = n }) ≡ credits slot
unfolding credits slot_is_valid
credits-sign_count slot n = refl

update-IsCounted :
    (appends : Bool) (i n : ℕ) (st : Store)
    → IsCounted st
    → IsCounted (store_update_sign_count appends i n st).1
unfolding store_update_sign_count
update-IsCounted appends i n st ok = elim (Bool-cases (slot_is_taken i st)) [
  | inr e ↦ rw (e, store_update_sign_count) ok
  | inl e ↦
      let (h, valid) = slot_is_taken-inside i st e in
      let slot = get_or st.slots i blank in
      let slot' : Slot = record slot { sign_count = n } in
      let long = length-set st.slots i slot' in
      let changed : IsCounted
          (record { slots = set st.slots i slot'; credential_count = st.credential_count }) =
        set-IsCounted st i st.credential_count slot' ok h
          (omega (arith, credits-sign_count slot n)) in
      rw (e, store_update_sign_count)
        (picked _ _ appends changed (
          set-IsCounted _ i st.credential_count _ changed (omega arith) (
            omega
              (arith, credits-sign_count (get_or (set st.slots i slot') i blank) slot.sign_count))))
]

clear-IsCounted :
    (commits : Bool) (st : Store) → IsCounted st → IsCounted (store_clear_credentials commits st).1
unfolding store_clear_credentials
clear-IsCounted commits st ok =
    let l = ok.small in
    record {
      counted = sym (valid_count-all_blank st.slots);
      small = omega (arith, length-all_blank st.slots);
    }

pub operate-IsCounted :
    (o : Operation) (st : Store) → IsStorableIn o → IsCounted st → IsCounted (operate o st)
unfolding operate IsStorableIn
operate-IsCounted (add commits r) st fits ok = add-IsCounted commits r st fits ok
operate-IsCounted (update appends i n) st fits ok = update-IsCounted appends i n st ok
operate-IsCounted (delete commits i) st fits ok = delete-IsCounted commits i st ok
operate-IsCounted (clear commits) st fits ok = clear-IsCounted commits st ok

-- The count stays the number of valid slots through every sequence of operations, whichever of their
-- commits fail, as long as the records that are added fit a slot.
pub operate_all-IsCounted :
    (os : List Operation) (st : Store)
    → All IsStorableIn os
    → IsCounted st
    → IsCounted (operate_all os st)
unfolding operate_all
operate_all-IsCounted [] st fits ok = ok
operate_all-IsCounted (o ∷ rest) st (fits, more) ok =
    operate_all-IsCounted rest (operate o st) more (operate-IsCounted o st fits ok)
