-- ===== src/Store/Kept.antt =====
-- The operations of src/credential_store.c leave a payload that the checks after a load leave alone.
use meow_key.Prelude.{ℕ, true, false, not, List}
use meow_key.Prelude.{◌≡◌, refl, ◌∙◌, arith, inl, inr, Bool-cases, Option-cases, length, get_or}
use meow_key.Prelude.{length-set}
use meow_key.Store.Slot.{
  CredentialRecord, Slot, blank, slot_is_valid, IsStorable, copy_record_to_slot,
}
use meow_key.Store.Slot.{copy_record_to_slot-valid}
use meow_key.Store.Slots.{Store, wipes, slot_is_taken, first_slot}
use meow_key.Store.Slots.{store_add_credential, store_update_sign_count}
use meow_key.Store.Slots.{store_delete_credential_by_slot, store_clear_credentials}
use meow_key.Store.Count.{slot_is_taken-inside, length-all_blank}
use meow_key.Store.Steps.{
  Operation, operate, add, update, delete, clear, IsStorableIn, operate-IsCounted,
}
use meow_key.Store.Payload.{Payload, Build}
use meow_key.Store.Clean.{IsClean, wipes-valid, wipes-blank, wipes-all_blank}

-- The slots stay as many, and none is to be wiped.
record IsKept (slots slots' : List Slot) : Type 0 where
  kept : wipes slots' ≡ false
  same_length : length slots' ≡ length slots

same-IsKept : (slots : List Slot) → wipes slots ≡ false → IsKept slots slots
same-IsKept slots w = record { kept = w; same_length = refl }

add-IsKept :
    (r : CredentialRecord) (st : Store)
    → IsStorable r
    → wipes st.slots ≡ false
    → IsKept st.slots ((store_add_credential true r st).1).slots
unfolding store_add_credential
add-IsKept r st fits w = elim (Option-cases (first_slot (λ s. not (slot_is_valid s)) st.slots 0)) [
  | inl e ↦ rw (e, store_add_credential) (same-IsKept st.slots w)
  | inr ((i, slot), e) ↦
      let s = copy_record_to_slot r in
      rw (e, store_add_credential)
        (record {
          kept = wipes-valid st.slots i s w (copy_record_to_slot-valid r fits);
          same_length = length-set st.slots i s;
        })
]

delete-IsKept :
    (i : ℕ) (st : Store)
    → wipes st.slots ≡ false
    → IsKept st.slots ((store_delete_credential_by_slot true i st).1).slots
unfolding store_delete_credential_by_slot
delete-IsKept i st w = elim (Bool-cases (slot_is_taken i st)) [
  | inr e ↦ rw (e, store_delete_credential_by_slot) (same-IsKept st.slots w)
  | inl e ↦
      rw (e, store_delete_credential_by_slot)
        (record { kept = wipes-blank st.slots i w; same_length = length-set st.slots i blank })
]

valid-sign_count :
    (slot : Slot) (count : ℕ)
    → slot_is_valid (record slot { sign_count = count }) ≡ slot_is_valid slot
unfolding slot_is_valid
valid-sign_count slot count = refl

update-IsKept :
    (i count : ℕ) (st : Store)
    → wipes st.slots ≡ false
    → IsKept st.slots ((store_update_sign_count true i count st).1).slots
unfolding store_update_sign_count
update-IsKept i count st w = elim (Bool-cases (slot_is_taken i st)) [
  | inr e ↦ rw (e, store_update_sign_count) (same-IsKept st.slots w)
  | inl e ↦
      let (h, valid) = slot_is_taken-inside i st e in
      let slot = get_or st.slots i blank in
      let slot' : Slot = record slot { sign_count = count } in
      rw (e, store_update_sign_count)
        (record {
          kept = wipes-valid st.slots i slot' w (valid-sign_count slot count ∙ valid);
          same_length = length-set st.slots i slot';
        })
]

-- Whether the commit of an operation goes through.
unfoldable pub Commits : Operation → Type 0
Commits (add commits r) = commits ≡ true
Commits (update appends i count) = appends ≡ true
Commits (delete commits i) = commits ≡ true
Commits (clear commits) = commits ≡ true

operate-IsKept :
    (o : Operation) (st : Store)
    → IsStorableIn o
    → Commits o
    → wipes st.slots ≡ false
    → IsKept st.slots (operate o st).slots
unfolding operate IsStorableIn Commits store_clear_credentials
operate-IsKept (add true r) st fits c w = add-IsKept r st fits w
operate-IsKept (update true i count) st fits c w = update-IsKept i count st w
operate-IsKept (delete true i) st fits c w = delete-IsKept i st w
operate-IsKept (clear b) st fits c w = record {
  kept = wipes-all_blank st.slots;
  same_length = length-all_blank st.slots;
}
operate-IsKept (add false r) st fits c w = absurd cc
operate-IsKept (update false i count) st fits c w = absurd cc
operate-IsKept (delete false i) st fits c w = absurd cc

pub operate-IsClean :
    (build : Build) (o : Operation) (p : Payload)
    → IsStorableIn o
    → Commits o
    → IsClean build p
    → IsClean build (record p { credentials = operate o p.credentials })
operate-IsClean build o p fits commits c =
    let k = operate-IsKept o p.credentials fits commits c.kept in
    let few = c.few in
    let same = k.same_length in
    record {
      kept = k.kept;
      counted = operate-IsCounted o p.credentials fits c.counted;
      settings = c.settings;
      has_retries = c.has_retries;
      few = omega arith;
    }
