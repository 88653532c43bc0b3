-- ===== src/Tests/Refinement.antt =====
-- Calls on the store of src/credential_store.c, and a cycle of the power, at concrete inputs.
use meow_key.Prelude.{ℕ, Bool, true, List, [], ◌∷◌, none, ◌≡◌, refl, ap, arith, inl, All}
use meow_key.ClientPin.State.{PinState}
use meow_key.Store.Slot.{slot_is_valid, copy_record_to_slot}
use meow_key.Store.Slots.{slot_is_taken}
use meow_key.Store.Flash.{entry_is_blank}
use meow_key.Store.Image.{}
use meow_key.Store.Machine.{
  Ram, program_slot, commit_payload, commit_transaction, journal_append, journal_ensure_ready,
  journal_program, update_sign_count,
}
use meow_key.Store.Changes.{store_set_pin_state}
use meow_key.Store.Load.{load}
use meow_key.Store.Durable.{Durable}
use meow_key.Store.Calls.{Call, set_pin, update_count, power_cycle, perform, IsAllowed}
use meow_key.Store.Refinement.{perform_all, expected_all, perform_all-load}
use meow_key.Tests.Flash.{Flash, device, device-IsDevice, nor, nor-IsNor}
use meow_key.Store.Machine.{target_slot}
use meow_key.Prelude.{add32}
use meow_key.Store.Flash.{Image}
use meow_key.Store.Commit.{slot_full}
use meow_key.Tests.Flash.{Marked}
use meow_key.Tests.Durable.{prepared, programs, image_of, build, salt, ram, flash, agree}

abbrev pin : PinState
pin = record { configured = true; retries = 8; pin_hash = 4 ∷ [] }

abbrev calls : List (List ℕ × Call)
calls = (salt, update_count 0 9) ∷ (salt, power_cycle) ∷ (salt, set_pin pin) ∷ []

abbrev after : Bool × Ram × Flash
after = perform_all device nor build calls ram flash

each-IsAllowed : All (λ (c : List ℕ × Call). IsAllowed (c.1)) calls
unfolding IsAllowed
each-IsAllowed = (tt, (tt, (inl refl, tt)))

-- On this flash a commit succeeds.
slot_succeeds :
    (i : ℕ) (im : Image Marked) (f : Flash)
    → program_slot device nor i im f ≡ (true, slot_full device nor i im f)
unfolding program_slot
slot_succeeds i im f = rw (programs i im f, program_slot) refl

payload_succeeds : (r : Ram) (f : Flash) → (commit_payload device nor salt r f).0 ≡ true
unfolding commit_payload
payload_succeeds r f =
    rw
      (
        prepared (add32 r.generation 1) r.payload,
        slot_succeeds (target_slot r) (image_of (add32 r.generation 1) r.payload) f,
        commit_payload,
      )
      refl

commit_succeeds : (r : Ram) (f : Flash) → (commit_transaction device nor salt r f).0 ≡ true
unfolding commit_transaction
commit_succeeds r f = rw (payload_succeeds r f, commit_transaction) refl

count_succeeds : (update_sign_count device nor salt 0 9 ram flash).0 ≡ true
unfolding update_sign_count slot_is_taken slot_is_valid copy_record_to_slot journal_append
    journal_ensure_ready journal_program entry_is_blank
count_succeeds = refl

succeeds : after.0 ≡ true
unfolding perform_all perform store_set_pin_state
succeeds = rw (count_succeeds, commit_succeeds) refl

perform_all-load_example :
    Durable device nor build after.1 after.2
    × (after.1.payload ≡ expected_all build calls ram.payload)
    × ((load device nor build salt none after.2).0.payload ≡ expected_all build calls ram.payload)
perform_all-load_example =
    perform_all-load device nor build device-IsDevice nor-IsNor (omega arith) calls ram flash
      after.1 after.2 salt agree (omega arith) each-IsAllowed
      (ap (λ b. (b, after.1, after.2)) succeeds)
