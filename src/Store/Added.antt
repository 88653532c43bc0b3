-- ===== src/Store/Added.antt =====
-- What src/credential_store.c holds after a credential has been added.
use meow_key.Prelude.{ℕ, ◌<◌, Bool, true, false, not, List, ◌==◌}
use meow_key.Prelude.{none, some, ◌≡◌, refl, sym, ap, ◌∙◌, arith, Option-cases, inl, inr, ◌⊎◌}
use meow_key.Prelude.{length, length-set, get_or, get_or-set, set, low_byte}
use meow_key.Store.Slot.{
  CredentialRecord, Slot, blank, slot_is_valid, copy_record_to_slot, copy_slot_to_record,
  IsStorable,
}
use meow_key.Store.Slot.{copy_record_to_slot-valid, flag}
use meow_key.Store.Slots.{Store, first_slot, store_add_credential, store_get_credential_by_slot}
use meow_key.Store.Search.{store_get_credential_by_slot-taken}
use meow_key.Store.Steps.{add_free}

flag_test : (b : Bool) → not (flag b == 0) ≡ b
flag_test true = refl
flag_test false = refl

low_byte_small : (n : ℕ) → n < 256 → low_byte n ≡ n
low_byte_small n h = omega arith

-- A record that fits a slot comes back from it unchanged.
copy_slot_to_record-copy_record_to_slot :
    (r : CredentialRecord) → IsStorable r → copy_slot_to_record (copy_record_to_slot r) ≡ r
unfolding copy_slot_to_record copy_record_to_slot
copy_slot_to_record-copy_record_to_slot r fits =
    let a = low_byte_small r.credential_id_length (let h = fits.id in omega arith) in
    let b = low_byte_small r.private_key_length (let h = fits.key in omega arith) in
    let c = low_byte_small r.rp_id_length (let h = fits.rp in omega arith) in
    let d = low_byte_small r.user_id_length (let h = fits.user in omega arith) in
    let e = low_byte_small r.user_name_length (let h = fits.name in omega arith) in
    let f = low_byte_small r.display_name_length (let h = fits.display in omega arith) in
    rw (a, b, c, d, e, f, flag_test r.discoverable, flag_test r.cred_random_ready) refl

written :
    (st : Store) (slots : List Slot) (i : ℕ)
    → slots ≡ st.slots
    → i < length slots
    → slot_is_valid (get_or slots i blank) ≡ true
    → store_get_credential_by_slot i st ≡ some (copy_slot_to_record (get_or slots i blank))
written st slots i e h v = go (sym e)
  where
    go :
        st.slots ≡ slots
        → store_get_credential_by_slot i st ≡ some (copy_slot_to_record (get_or slots i blank))
    go q =
        store_get_credential_by_slot-taken i st (omega (arith, ap (λ (l : List Slot). length l) q))
          (ap (λ (l : List Slot). slot_is_valid (get_or l i blank)) q ∙ v)
        ∙ ap (λ (l : List Slot). some (copy_slot_to_record (get_or l i blank))) q

-- After a successful addition of a record that fits a slot, reading the slot that was answered gives
-- the record back, field by field; that slot was free before; and only that slot has been written.
pub store_add_credential-get :
    (r : CredentialRecord) (st st' : Store) (i : ℕ)
    → IsStorable r
    → store_add_credential true r st ≡ (some i, st')
    → (store_get_credential_by_slot i st' ≡ some r)
      × (slot_is_valid (get_or st.slots i blank) ≡ false)
      × (st'.slots ≡ set st.slots i (copy_record_to_slot r))
unfolding store_add_credential
store_add_credential-get r st st' i fits q =
    go (Option-cases (first_slot (λ s. not (slot_is_valid s)) st.slots 0)) q
  where
    go :
        ((first_slot (λ s. not (slot_is_valid s)) st.slots 0 ≡ none)
          ⊎ ((a : ℕ × Slot) × (first_slot (λ s. not (slot_is_valid s)) st.slots 0 ≡ some a)))
        → store_add_credential true r st ≡ (some i, st')
        → (store_get_credential_by_slot i st' ≡ some r)
          × (slot_is_valid (get_or st.slots i blank) ≡ false)
          × (st'.slots ≡ set st.slots i (copy_record_to_slot r))
    go (inl e) q = absurd (ground (arith, q, e))
    go (inr ((k, slot), e)) q =
        let (h, free) = add_free st k slot e in
        let at : k ≡ i = ground (arith, q, e) in
        let new = copy_record_to_slot r in
        let after : st'.slots ≡ set st.slots k new = ground (arith, q, e) in
        let seen = get_or-set st.slots k new blank h in
        let v = ap slot_is_valid seen ∙ copy_record_to_slot-valid r fits in
        let long = length-set st.slots k new in
        rw (sym at) (
          written st' (set st.slots k new) k (sym after) (omega arith) v
              ∙ ap (λ (s : Slot). some (copy_slot_to_record s)) seen
              ∙ ap some (copy_slot_to_record-copy_record_to_slot r fits),
          free,
          after,
        )
