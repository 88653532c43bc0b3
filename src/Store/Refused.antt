-- ===== src/Store/Refused.antt =====
-- What the operations of src/credential_store.c leave in the slots when they succeed and when they
-- report a failure.
use meow_key.Prelude.{ℕ, ◌<◌, ◌^◌, Bool, true, false, not, List, ◌==◌}
use meow_key.Prelude.{
  Option, none, some, ◌≡◌, ◌≢◌, refl, sym, ap, ◌∙◌, arith, Bool-cases, Option-cases, inl, inr,
}
use meow_key.Prelude.{
  length, length-set, get_or, get_or-set, get_or-set_other, set, add32, sub32, if◌then◌else◌,
}
use meow_key.Store.Slot.{CredentialRecord, Slot, blank, slot_is_valid, copy_record_to_slot}
use meow_key.Store.Slot.{blank-invalid}
use meow_key.Store.Slots.{Store, first_slot, slot_is_taken}
use meow_key.Store.Slots.{
  store_add_credential, store_update_sign_count, store_delete_credential_by_slot,
}
use meow_key.Store.Count.{slot_is_taken-inside}
use meow_key.Store.Steps.{add_free}

-- What a slot holds for the searches: a slot that is not valid holds nothing.
unfoldable pub present : Slot → Option Slot
present slot = if slot_is_valid slot then some slot else none

-- The two stores hold the same credentials in the same slots.
pub record SameCredentials (st st' : Store) : Type 0 where
  pub count : st'.credential_count ≡ st.credential_count
  pub capacity : length st'.slots ≡ length st.slots
  pub each : (j : ℕ) → present (get_or st'.slots j blank) ≡ present (get_or st.slots j blank)

present-invalid : (slot : Slot) → slot_is_valid slot ≡ false → present slot ≡ none
unfolding present
present-invalid slot e = rw e refl

-- A write that is undone by another.
rewritten :
    (slots : List Slot) (i : ℕ) (slot slot' : Slot)
    → i < length slots
    → present slot' ≡ present (get_or slots i blank)
    → (j : ℕ)
    → present (get_or (set (set slots i slot) i slot') j blank) ≡ present (get_or slots j blank)
rewritten slots i slot slot' h e j = elim (Bool-cases (i == j)) [
  | inl q ↦
      let same : i ≡ j = ground arith in
      let long = length-set slots i slot in
      rw (sym same) (ap present (get_or-set (set slots i slot) i slot' blank (omega arith)) ∙ e)
  | inr q ↦
      let other : i ≢ j = ground arith in
      ap present (
        get_or-set_other (set slots i slot) i j slot' blank other
        ∙ get_or-set_other slots i j slot blank other)
]

undone :
    (st : Store) (i count : ℕ) (slot slot' : Slot)
    → i < length st.slots
    → count ≡ st.credential_count
    → present slot' ≡ present (get_or st.slots i blank)
    → SameCredentials st
        (record { slots = set (set st.slots i slot) i slot'; credential_count = count })
undone st i count slot slot' h c e = record {
  count = c;
  capacity = length-set (set st.slots i slot) i slot' ∙ length-set st.slots i slot;
  each = rewritten st.slots i slot slot' h e;
}

same : (st : Store) → SameCredentials st st
same st = record { count = refl; capacity = refl; each = λ j. refl }

-- Adding a credential that reports a failure, because there is no free slot or because the commit
-- failed, leaves the count, which is below 2 ^ 32, and the credential in every slot as they were.
pub add_refused :
    (commits : Bool) (r : CredentialRecord) (st : Store)
    → st.credential_count < 2 ^ 32
    → (store_add_credential commits r st).0 ≡ none
    → SameCredentials st (store_add_credential commits r st).1
unfolding store_add_credential
add_refused true r st small q =
    elim (Option-cases (first_slot (λ s. not (slot_is_valid s)) st.slots 0)) [
      | inl e ↦ rw (e, store_add_credential) (same st)
      | inr ((i, slot), e) ↦ absurd (ground (arith, q, e))
    ]
add_refused false r st small q =
    elim (Option-cases (first_slot (λ s. not (slot_is_valid s)) st.slots 0)) [
      | inl e ↦ rw (e, store_add_credential) (same st)
      | inr ((i, slot), e) ↦
          let (h, free) = add_free st i slot e in
          rw (e, store_add_credential)
            (undone st i (sub32 (add32 st.credential_count 1) 1) (copy_record_to_slot r) blank h
              (omega arith)
              (present-invalid blank blank-invalid
                ∙ sym (present-invalid (get_or st.slots i blank) free)))
    ]

-- Deleting a credential that reports a failure, because there is none in the slot or because the
-- commit failed, leaves the count and the credential in every slot as they were.
delete_refused :
    (commits : Bool) (i : ℕ) (st : Store)
    → (store_delete_credential_by_slot commits i st).0 ≡ false
    → SameCredentials st (store_delete_credential_by_slot commits i st).1
unfolding store_delete_credential_by_slot
delete_refused commits i st q = elim (Bool-cases (slot_is_taken i st)) [
  | inr e ↦ rw (e, store_delete_credential_by_slot) (same st)
  | inl e ↦ go commits e q
]
  where
    go :
        (b : Bool)
        → slot_is_taken i st ≡ true
        → (store_delete_credential_by_slot b i st).0 ≡ false
        → SameCredentials st (store_delete_credential_by_slot b i st).1
    go true e q = absurd (ground (arith, q, e))
    go false e q =
        rw (e, store_delete_credential_by_slot)
          (undone st i st.credential_count blank (get_or st.slots i blank)
            (slot_is_taken-inside i st e).0 refl refl)

-- Updating a signature count that reports a failure, because there is no credential in the slot or
-- because the journal failed, leaves the count and the credential in every slot as they were.
update_refused :
    (appends : Bool) (i n : ℕ) (st : Store)
    → (store_update_sign_count appends i n st).0 ≡ false
    → SameCredentials st (store_update_sign_count appends i n st).1
unfolding store_update_sign_count
update_refused appends i n st q = elim (Bool-cases (slot_is_taken i st)) [
  | inr e ↦ rw (e, store_update_sign_count) (same st)
  | inl e ↦ go appends e q
]
  where
    go :
        (b : Bool)
        → slot_is_taken i st ≡ true
        → (store_update_sign_count b i n st).0 ≡ false
        → SameCredentials st (store_update_sign_count b i n st).1
    go true e q = absurd (ground (arith, q, e))
    go false e q =
        let slot = get_or st.slots i blank in
        let changed : Slot = record slot { sign_count = n } in
        let h = (slot_is_taken-inside i st e).0 in
        rw (e, store_update_sign_count)
          (undone st i st.credential_count changed _ h refl (
            ap (λ (s : Slot). present (record s { sign_count = slot.sign_count }))
              (get_or-set st.slots i changed blank h)))
