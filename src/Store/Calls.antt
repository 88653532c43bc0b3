-- ===== src/Store/Calls.antt =====
-- The calls that change the store of src/credential_store.c, with the flash, and cycles of the power
-- between them; what they do to the payload.
use meow_key.Prelude.{ℕ, ◌<◌, Bool, true, false, List, Option, none, some}
use meow_key.Prelude.{◌≡◌, ◌⊎◌}
use meow_key.UserPresence.Config.{Config}
use meow_key.ClientPin.State.{PinState}
use meow_key.Store.Slot.{CredentialRecord, IsStorable}
use meow_key.Store.Steps.{operate, add, update, delete, clear}
use meow_key.Store.Payload.{Payload, Build}
use meow_key.Store.Flash.{Device, Nor}
use meow_key.Store.Machine.{Ram, update_sign_count}
use meow_key.Store.Changes.{
  pin_stored, presence_stored, store_set_pin_state, store_set_user_presence_config, add_credential,
  delete_credential_by_slot, clear_credentials,
}
use meow_key.Store.Load.{load}

pub data Call : Type 0 where
  set_pin : PinState → Call
  set_presence : Config → Call
  add_record : CredentialRecord → Call
  update_count : ℕ → ℕ → Call
  delete_slot : ℕ → Call
  clear_all : Call
  power_cycle : Call

abbrev pub is_some : {A : Type 0} → Option A → Bool
is_some none = false
is_some (some a) = true

-- A call, and whether it reports success; the salt is what the random generator gives it.
module _ {Raw F : Type 0} (d : Device Raw) (n : Nor Raw F) (build : Build) where
  unfoldable pub perform : List ℕ → Call → Ram → F → Bool × Ram × F
  perform salt (set_pin pin) r f = store_set_pin_state d n salt pin r f
  perform salt (set_presence c) r f = store_set_user_presence_config d n build salt c r f
  perform salt (add_record c) r f =
      let (i, r', f') = add_credential d n salt c r f in (is_some i, r', f')
  perform salt (update_count i count) r f = update_sign_count d n salt i count r f
  perform salt (delete_slot i) r f = delete_credential_by_slot d n salt i r f
  perform salt clear_all r f = clear_credentials d n salt r f
  perform salt power_cycle r f = let (r', f') = load d n build salt none f in (true, r', f')

-- What a call is to do to the payload: a cycle of the power does nothing.
unfoldable pub expected : Build → Call → Payload → Payload
expected build (set_pin pin) p = record p { fixed = pin_stored pin p.fixed }
expected build (set_presence c) p = record p { fixed = presence_stored build c p.fixed }
expected build (add_record c) p = record p { credentials = operate (add true c) p.credentials }
expected build (update_count i count) p = record p {
  credentials = operate (update true i count) p.credentials;
}
expected build (delete_slot i) p = record p { credentials = operate (delete true i) p.credentials }
expected build clear_all p = record p { credentials = operate (clear true) p.credentials }
expected build power_cycle p = p

-- A PIN that is not set keeps attempts, and a record fits a slot.
unfoldable pub IsAllowed : Call → Type 0
IsAllowed (set_pin pin) = (pin.configured ≡ true) ⊎ (0 < pin.retries)
IsAllowed (set_presence c) = Unit
IsAllowed (add_record c) = IsStorable c
IsAllowed (update_count i count) = Unit
IsAllowed (delete_slot i) = Unit
IsAllowed clear_all = Unit
IsAllowed power_cycle = Unit
