-- ===== src/Store/Load.antt =====
-- The loading of the store after a reset (`store_load_if_needed` of src/credential_store.c).
use meow_key.Prelude.{ℕ, Bool, true, false, ◌&&◌, ◌||◌, not, List, Option, none, some}
use meow_key.Prelude.{ltb, ◌==◌, if◌then◌else◌}
use meow_key.Store.Slots.{store_sanitize_slots}
use meow_key.Store.Payload.{
  Payload, Build, retries_default, reset_payload, sanitize_user_presence_config,
}
use meow_key.Store.Flash.{Device, Nor}
use meow_key.Store.Image.{Loaded, crc32_bytes, load_slot}
use meow_key.Store.Machine.{Ram, commit_transaction, journal_load_if_present}

-- The slot of the larger generation, the first of equals.
abbrev pub better : ℕ → Option Loaded → Option (ℕ × Loaded) → Option (ℕ × Loaded)
better i none best = best
better i (some l) none = some (i, l)
better i (some l) (some (j, b)) = if ltb b.generation l.generation then some (i, l) else some (j, b)

-- The checks after a load: whether they changed anything, and the payload.
unfoldable pub sanitize : Build → Payload → Bool × Payload
sanitize build p =
    let (slots_changed, credentials) = store_sanitize_slots p.credentials in
    let (settings_changed, fixed) = sanitize_user_presence_config build p.fixed in
    let unset = fixed.pin_retries == 0 && fixed.pin_configured == 0 in
    (
      slots_changed || (settings_changed || unset),
      record {
        fixed = if unset then record fixed { pin_retries = retries_default } else fixed;
        credentials = credentials;
      },
    )

abbrev imported_payload : Build → Option Payload → Payload
imported_payload build none = reset_payload build
imported_payload build (some p) = p

abbrev is_present : Option Payload → Bool
is_present none = false
is_present (some p) = true

module _ {Raw F : Type 0} (d : Device Raw) (n : Nor Raw F) (build : Build) where
  unfoldable pub best_slot : F → Option (ℕ × Loaded)
  best_slot f = better 1 (load_slot d (n.image f 1)) (better 0 (load_slot d (n.image f 0)) none)

  abbrev pub cold : Ram
  cold = record {
    payload = reset_payload build;
    loaded = false;
    generation = 0;
    payload_crc32 = crc32_bytes (d.bytes_of (d.raw_of (reset_payload build)));
    active_slot = none;
    journal_ready = false;
    next_sequence = 1;
    next_entry_index = 0;
  }

  -- `store_load_if_needed` after a reset; `imported` is what an older firmware's image gives.
  unfoldable pub load_slots : List ℕ → Option (ℕ × Loaded) → Option Payload → F → Ram × F
  load_slots salt (some (i, l)) imported f =
      let (changed, payload) = sanitize build l.payload in
      let r =
        journal_load_if_present d n
          (record cold {
            payload = payload;
            generation = l.generation;
            payload_crc32 = l.payload_crc32;
            active_slot = some i;
          })
          f in
      let r' = record r {
        loaded = true;
        payload_crc32 = crc32_bytes (d.bytes_of (d.raw_of r.payload));
      } in
      if not l.wrapped || changed
      then (let (done, r'', f') = commit_transaction d n salt r' f in (r'', f'))
      else (r', f)
  load_slots salt none imported f =
      let (changed, payload) = sanitize build (imported_payload build imported) in
      let r = record cold { payload = payload; loaded = true } in
      if is_present imported || changed
      then (let (done, r', f') = commit_transaction d n salt r f in (r', f'))
      else (r, f)

  unfoldable pub load : List ℕ → Option Payload → F → Ram × F
  load salt imported f = load_slots salt (best_slot f) imported f
