-- ===== src/Store/Slots.antt =====
-- The operations of src/credential_store.c on the slots: each ends with a commit to the flash, which
-- may fail. `store_load_if_needed` has run.
use meow_key.Prelude.{ℕ, zero, suc, Bool, true, false, ◌&&◌, ◌||◌, not, List, [], ◌∷◌}
use meow_key.Prelude.{Option, none, some, length, get_or, set, ltb, leb, ◌==◌, if◌then◌else◌}
use meow_key.Prelude.{add32, sub32}
use meow_key.Store.Slot.{
  CredentialRecord, Slot, blank, slot_is_valid, copy_record_to_slot, copy_slot_to_record,
}

-- `s_store.data`: the slots, as many as the build's capacity, and the count of credentials.
pub record Store : Type 0 where
  pub slots : List Slot
  pub credential_count : ℕ

-- A slot in use that is not valid is wiped.
unfoldable pub sanitized : Slot → Slot
sanitized slot = if slot_is_valid slot then slot else if slot.in_use == 0 then slot else blank

unfoldable pub sanitized_slots : List Slot → List Slot
sanitized_slots [] = []
sanitized_slots (slot ∷ rest) = sanitized slot ∷ sanitized_slots rest

-- `valid_count` of `store_sanitize_slots`
unfoldable pub valid_count : List Slot → ℕ
valid_count [] = 0
valid_count (slot ∷ rest) =
    let more = valid_count rest in if slot_is_valid slot then suc more else more

-- Whether a slot is wiped.
unfoldable pub wipes : List Slot → Bool
wipes [] = false
wipes (slot ∷ rest) = (not (slot_is_valid slot) && not (slot.in_use == 0)) || wipes rest

-- The result says whether anything changed.
unfoldable pub store_sanitize_slots : Store → Bool × Store
store_sanitize_slots st = (
  wipes st.slots || not (st.credential_count == valid_count st.slots),
  record { slots = sanitized_slots st.slots; credential_count = valid_count st.slots },
)

-- The first slot that passes a test, and its index.
unfoldable pub first_slot : (Slot → Bool) → List Slot → ℕ → Option (ℕ × Slot)
first_slot test [] i = none
first_slot test (slot ∷ rest) i =
    let later = first_slot test rest (suc i) in if test slot then some (i, slot) else later

-- `meowkey_store_add_credential`, with the index of the slot.
unfoldable pub store_add_credential : Bool → CredentialRecord → Store → Option ℕ × Store
store_add_credential commits r st = elim (first_slot (λ s. not (slot_is_valid s)) st.slots 0) [
  | none ↦ (none, st)
  | some (i, slot) ↦
      let st' : Store = record {
        slots = set st.slots i (copy_record_to_slot r);
        credential_count = add32 st.credential_count 1;
      } in
      if commits then (some i, st') else (
        none,
        record { slots = set st'.slots i blank; credential_count = sub32 st'.credential_count 1 },
      )
]

-- `memcmp(left, right, n) == 0`
unfoldable pub same_bytes : ℕ → List ℕ → List ℕ → Bool
same_bytes zero left right = true
same_bytes (suc n) left right = same_bytes n left right && (get_or left n 0 == get_or right n 0)

unfoldable pub holds_credential_id : List ℕ → ℕ → Slot → Bool
holds_credential_id id id_length slot =
    if not (slot_is_valid slot) || not (slot.credential_id_length == id_length)
    then false
    else same_bytes id_length slot.credential_id id

unfoldable pub holds_rp_id : List ℕ → ℕ → Slot → Bool
holds_rp_id rp_id rp_id_length slot =
    if not (slot_is_valid slot) || not (slot.rp_id_length == rp_id_length)
    then false
    else same_bytes rp_id_length slot.rp_id rp_id

-- The index and the record that a search finds.
abbrev pub found : Option (ℕ × Slot) → Option (ℕ × CredentialRecord)
found none = none
found (some (i, slot)) = some (i, copy_slot_to_record slot)

unfoldable pub store_find_by_credential_id : List ℕ → ℕ → Store → Option (ℕ × CredentialRecord)
store_find_by_credential_id id id_length st =
    found (first_slot (holds_credential_id id id_length) st.slots 0)

-- The length is `strlen(rp_id)`.
unfoldable pub store_find_by_rp_id : List ℕ → ℕ → Store → Option (ℕ × CredentialRecord)
store_find_by_rp_id rp_id rp_id_length st =
    found (first_slot (holds_rp_id rp_id rp_id_length) st.slots 0)

-- The guard that the operations on one slot share.
unfoldable pub slot_is_taken : ℕ → Store → Bool
slot_is_taken i st =
    if leb (length st.slots) i then false else slot_is_valid (get_or st.slots i blank)

unfoldable pub store_get_credential_by_slot : ℕ → Store → Option CredentialRecord
store_get_credential_by_slot i st =
    if not (slot_is_taken i st) then none else some (copy_slot_to_record (get_or st.slots i blank))

-- The count goes to the journal; `appends` says whether that succeeds.
unfoldable pub store_update_sign_count : Bool → ℕ → ℕ → Store → Bool × Store
store_update_sign_count appends i count st =
    if not (slot_is_taken i st)
    then (false, st)
    else (let slot = get_or st.slots i blank in
        let slots' = set st.slots i (record slot { sign_count = count }) in
        if appends
        then (true, record st { slots = slots' })
        else (let slot' = get_or slots' i blank in
            (
              false,
              record st { slots = set slots' i (record slot' { sign_count = slot.sign_count }) },
            )))

unfoldable pub store_delete_credential_by_slot : Bool → ℕ → Store → Bool × Store
store_delete_credential_by_slot commits i st =
    if not (slot_is_taken i st)
    then (false, st)
    else (let previous_slot = get_or st.slots i blank in
        let slots' = set st.slots i blank in
        let count' =
          if ltb 0 st.credential_count then sub32 st.credential_count 1 else st.credential_count in
        if commits then (true, record { slots = slots'; credential_count = count' }) else (
          false,
          record { slots = set slots' i previous_slot; credential_count = st.credential_count },
        ))

unfoldable pub all_blank : List Slot → List Slot
all_blank [] = []
all_blank (slot ∷ rest) = blank ∷ all_blank rest

-- `meowkey_store_clear_credentials`: what is in memory is gone even if the commit fails.
unfoldable pub store_clear_credentials : Bool → Store → Bool × Store
store_clear_credentials commits st =
    (commits, record { slots = all_blank st.slots; credential_count = 0 })
