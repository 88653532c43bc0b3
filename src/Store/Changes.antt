-- ===== src/Store/Changes.antt =====
-- The changes that src/credential_store.c commits, with the flash: the PIN, the settings of user
-- presence, and the credentials.
use meow_key.Prelude.{ℕ, Bool, true, false, not, List, Option, none, some, if◌then◌else◌}
use meow_key.UserPresence.Config.{Config, config_is_valid}
use meow_key.ClientPin.State.{PinState}
use meow_key.Store.Slot.{CredentialRecord, slot_is_valid}
use meow_key.Store.Slots.{Store, first_slot, slot_is_taken, store_add_credential}
use meow_key.Store.Slots.{store_delete_credential_by_slot, store_clear_credentials}
use meow_key.Store.Payload.{Fixed, Build, mark_user_presence_provenance}
use meow_key.Store.Flash.{Device, Nor}
use meow_key.Store.Machine.{Ram, commit_transaction}

abbrev pub with_fixed : Fixed → Ram → Ram
with_fixed fixed r = record r { payload = record (r.payload) { fixed = fixed } }

-- The fixed part with a PIN, and with settings of user presence.
abbrev pub pin_stored : PinState → Fixed → Fixed
pin_stored pin fixed = record fixed {
  pin_configured = if pin.configured then 1 else 0;
  pin_retries = pin.retries;
  pin_hash = pin.pin_hash;
}

abbrev pub presence_stored : Build → Config → Fixed → Fixed
presence_stored build c fixed =
    mark_user_presence_provenance build (record fixed { user_presence = c })

abbrev pub with_credentials : Store → Ram → Ram
with_credentials st r = record r { payload = record (r.payload) { credentials = st } }

module _ {Raw F : Type 0} (d : Device Raw) (n : Nor Raw F) where
  unfoldable pub store_set_pin_state : List ℕ → PinState → Ram → F → Bool × Ram × F
  store_set_pin_state salt pin r f =
      commit_transaction d n salt (with_fixed (pin_stored pin r.payload.fixed) r) f

  unfoldable pub store_set_user_presence_config : Build → List ℕ → Config → Ram → F → Bool × Ram × F
  store_set_user_presence_config build salt c r f =
      if not (config_is_valid c)
      then (false, r, f)
      else commit_transaction d n salt (with_fixed (presence_stored build c r.payload.fixed) r) f

  -- A change of the credentials, and what becomes of them by whether the commit goes through.
  abbrev pub commit_slots :
      {A : Type 0} → List ℕ → (Bool → Store → A × Store) → Ram → F → A × Ram × F
  commit_slots salt change r f =
      let st = r.payload.credentials in
      let (done, r', f') =
        commit_transaction d n salt (with_credentials ((change true st).1) r) f in
      ((change done st).0, with_credentials ((change done st).1) r', f')

  -- `meowkey_store_add_credential`
  unfoldable pub add_credential : List ℕ → CredentialRecord → Ram → F → Option ℕ × Ram × F
  add_credential salt c r f =
      elim (first_slot (λ s. not (slot_is_valid s)) r.payload.credentials.slots 0) [
        | none ↦ (none, r, f)
        | some free ↦ commit_slots salt (λ commits. store_add_credential commits c) r f
      ]

  -- `meowkey_store_delete_credential_by_slot`
  unfoldable pub delete_credential_by_slot : List ℕ → ℕ → Ram → F → Bool × Ram × F
  delete_credential_by_slot salt i r f =
      if not (slot_is_taken i r.payload.credentials)
      then (false, r, f)
      else commit_slots salt (λ commits. store_delete_credential_by_slot commits i) r f

  -- `meowkey_store_clear_credentials`
  unfoldable pub clear_credentials : List ℕ → Ram → F → Bool × Ram × F
  clear_credentials salt r f = commit_slots salt store_clear_credentials r f
