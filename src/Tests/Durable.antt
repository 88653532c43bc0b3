-- ===== src/Tests/Durable.antt =====
-- The commits and loads of src/credential_store.c at concrete inputs.
use meow_key.Prelude.{ℕ, true, false, List, [], ◌∷◌, none, some, ◌≡◌, ◌≢◌, refl, arith}
use meow_key.UserPresence.Config.{config_is_valid}
use meow_key.Store.Slot.{blank, slot_is_valid, copy_record_to_slot}
use meow_key.Store.Slots.{wipes, slot_is_taken}
use meow_key.Store.Payload.{Payload, Build, sanitize_user_presence_config, config_is_trusted}
use meow_key.Store.Payload.{provenance_is_known}
use meow_key.Store.Flash.{Image}
use meow_key.Store.Image.{
  init_wrap_metadata, derive_wrap_material, payload_crypt, compute_wrap_tag, header_crc,
  fresh_header, prepare_slot_image, header_is_valid, load_slot, crc32_bytes, crc_bytes, crc_rounds,
}
use meow_key.Store.Images.{prepare_slot_image-load_slot}
use meow_key.Store.Machine.{Ram, committed}
use meow_key.Store.Clean.{IsClean}
use meow_key.Store.Durable.{Durable}
use meow_key.Store.Commit.{slot_full, slot_full-Programmed}
use meow_key.Store.Committed.{Committable, fresh, initialized, journal_ready-Durable}
use meow_key.Tests.Flash.{Marked, device, device-IsDevice, nor, nor-IsNor, blank_entry}
use meow_key.Tests.Flash.{Flash, slot_of, Image-discrete, decided-yes}
use meow_key.Prelude.{if◌then◌else◌, ◌==◌, ==_iff}
use meow_key.Store.Machine.{update_sign_count, sign_count_set}
use meow_key.Store.Durable.{slots_of}
use meow_key.Store.Load.{load}
use meow_key.Store.PowerCut.{slot_programmed, flash_at}
use meow_key.Store.Atomic.{Begun}
use meow_key.Store.Powered.{powered, commit_transaction-load}
use meow_key.Store.Machine.{commit_transaction}
use meow_key.Prelude.{leb, ◌+◌}
use meow_key.Store.Rollback.{update-lost}
use meow_key.Tests.Store.{one, one-IsCounted}

abbrev pub build : Build
build = record {
  defaults = record {
    source = 1;
    gpio_pin = 0;
    gpio_active_low = 1;
    tap_count = 1;
    gesture_window_ms = 500;
    request_timeout_ms = 8000;
  };
  debug_hid = false;
  max_credentials = 2;
}

abbrev payload : Payload
payload = record {
  fixed = record {
    pin_configured = 0;
    pin_retries = 8;
    user_presence_provenance_magic = 0xa5;
    user_presence_provenance_flags = 0x80;
    pin_hash = [];
    user_presence = build.defaults;
  };
  credentials = one;
}

payload-IsClean : IsClean build payload
unfolding wipes slot_is_valid copy_record_to_slot blank sanitize_user_presence_config
    config_is_valid config_is_trusted provenance_is_known
payload-IsClean = record {
  kept = refl;
  counted = one-IsCounted;
  settings = refl;
  has_retries = refl;
  few = omega arith;
}

abbrev pub salt : List ℕ
salt = 5 ∷ []

-- The image of a payload at a generation.
abbrev pub image_of : ℕ → Payload → Image Marked
image_of g p =
    let h = fresh_header device g (record (init_wrap_metadata salt) { tag = 1 ∷ [] }) (p, true) in
    record { header = record h { header_crc32 = header_crc device h }; payload = (p, true) }

pub prepared : (g : ℕ) (p : Payload) → prepare_slot_image device salt p g ≡ some (image_of g p)
unfolding prepare_slot_image payload_crypt compute_wrap_tag derive_wrap_material init_wrap_metadata
prepared g p = refl

prepare_slot_image-load_slot_example :
    load_slot device (image_of 3 payload)
    ≡ some (record {
      payload = payload;
      generation = 3;
      payload_crc32 = (image_of 3 payload).header.payload_crc32;
      wrapped = true;
    })
prepare_slot_image-load_slot_example =
    prepare_slot_image-load_slot device device-IsDevice salt payload 3 (image_of 3 payload)
      (prepared 3 payload) (omega arith)

-- A store before its first commit, and an erased flash.
abbrev new_ram : Ram
new_ram = record {
  payload = payload;
  loaded = true;
  generation = 0;
  payload_crc32 = 0;
  active_slot = none;
  journal_ready = false;
  next_sequence = 1;
  next_entry_index = 0;
}

abbrev new_flash : Flash
new_flash = record {
  slots = λ i. record (image_of 1 payload) {
    header = record ((image_of 1 payload).header) { magic = 0xffffffff };
  };
  journal = record {
    header = record {
      magic = 0xffffffff;
      version = 0;
      entry_size = 0;
      entry_capacity = 0;
      store_version = 0;
      store_generation = 0;
      store_payload_crc32 = 0;
    };
    entries = λ k. blank_entry;
  };
}

new-Committable : Committable device nor build new_ram new_flash
unfolding load_slot header_is_valid
new-Committable = record { no_newer = λ l e. absurd cc; clean = payload-IsClean; is_loaded = refl }

-- What programming a whole image leaves compares as equal.
pub programs :
    (i : ℕ) (im : Image Marked) (f : Flash)
    → nor.image_matches i im (slot_full device nor i im f) ≡ true
programs i im f =
    let here : (i == i) ≡ true = (==_iff i i).1 refl in
    decided-yes (Image-discrete (slot_of (slot_full device nor i im f) i) im) (rw (here) refl)

abbrev pub ram : Ram
ram = fresh device nor (committed (image_of 1 payload) new_ram)

abbrev pub flash : Flash
flash =
    initialized device nor (committed (image_of 1 payload) new_ram)
      (slot_full device nor 0 (image_of 1 payload) new_flash)

pub agree : Durable device nor build ram flash
agree =
    journal_ready-Durable device nor build salt new_ram new_flash (image_of 1 payload)
      (slot_full device nor 0 (image_of 1 payload) new_flash) device-IsDevice nor-IsNor
      (prepared 1 payload)
      (slot_full-Programmed device nor nor-IsNor 0 (image_of 1 payload) new_flash
        (programs 0 (image_of 1 payload) new_flash))
      (omega arith) new-Committable

-- The payload with fewer attempts left.
abbrev fewer : Payload
fewer = record payload { fixed = record (payload.fixed) { pin_retries = 3 } }

fewer-IsClean : IsClean build fewer
unfolding sanitize_user_presence_config config_is_valid config_is_trusted provenance_is_known
fewer-IsClean = record {
  kept = payload-IsClean.kept;
  counted = one-IsCounted;
  settings = refl;
  has_retries = refl;
  few = omega arith;
}

begun : Begun device nor build salt fewer ram flash (image_of 2 fewer)
begun = record {
  agrees = agree;
  clean = fewer-IsClean;
  small = omega arith;
  prepared = prepared 2 fewer;
  programs = programs 1 (image_of 2 fewer) flash;
}

commit_transaction-load_example :
    (let left =
        (commit_transaction device
          (powered nor)
          salt
          (record ram { payload = fewer })
          (2, flash)).2.1 in
      (load device nor build salt none left).0.payload
      ≡ (if leb (2 + nor.tail_pages) 2 then fewer else ram.payload))
commit_transaction-load_example =
    commit_transaction-load device nor nor-IsNor build device-IsDevice 2 salt salt fewer ram flash
      (image_of 2 fewer) begun

checksums :
    crc32_bytes (device.bytes_of (device.raw_of fewer)) ≢ (image_of 2 fewer).header.payload_crc32
unfolding crc32_bytes crc_bytes crc_rounds
checksums e = absurd (omega (arith, e))

taken : slot_is_taken 0 fewer.credentials ≡ true
unfolding slot_is_taken slot_is_valid copy_record_to_slot
taken = refl

update-lost_example :
    (let (r', f') =
        load device nor build salt none
          (flash_at device nor slot_programmed (image_of 2 fewer) ram flash) in
      let (done, r'', f'') = update_sign_count device nor salt 0 9 r' f' in
      (done ≡ true)
      × (r''.payload ≡ slots_of fewer (sign_count_set 0 9 fewer.credentials.slots))
      × ((load device nor build salt none f'').0.payload ≡ fewer))
update-lost_example =
    update-lost device nor build device-IsDevice nor-IsNor salt salt fewer ram flash
      (image_of 2 fewer) 0 9 begun (omega arith) taken checksums
