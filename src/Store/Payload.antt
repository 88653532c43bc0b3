-- ===== src/Store/Payload.antt =====
-- What src/credential_store.c keeps beside the credentials (`meowkey_store_payload_fixed_t`), and how
-- the user-presence settings are checked after a load.
use meow_key.Prelude.{ℕ, ◌/◌, ◌%◌, ◌^◌, Bool, true, false, ◌&&◌, not, List, replicate}
use meow_key.Prelude.{◌==◌, if◌then◌else◌}
use meow_key.UserPresence.Config.{Config, config_is_valid}
use meow_key.Store.Slot.{blank}
use meow_key.Store.Slots.{Store}

pub record Fixed : Type 0 where
  pub pin_configured : ℕ
  pub pin_retries : ℕ
  pub user_presence_provenance_magic : ℕ
  pub user_presence_provenance_flags : ℕ
  pub pin_hash : List ℕ
  pub user_presence : Config

-- `meowkey_store_payload_t`; the count of credentials stands with the slots.
pub record Payload : Type 0 where
  pub fixed : Fixed
  pub credentials : Store

-- What the build decides: the default settings, the debug interface, and the number of slots.
pub record Build : Type 0 where
  pub defaults : Config
  pub debug_hid : Bool
  pub max_credentials : ℕ

abbrev pub retries_default : ℕ
retries_default = 8

module _ (build : Build) where
  unfoldable pub current_provenance_flags : ℕ
  current_provenance_flags = if build.debug_hid then 0x81 else 0x80

  unfoldable pub mark_user_presence_provenance : Fixed → Fixed
  mark_user_presence_provenance fixed = record fixed {
    user_presence_provenance_magic = 0xa5;
    user_presence_provenance_flags = current_provenance_flags;
  }

  -- `flags & 0x80` and `flags & 0x01`
  unfoldable pub provenance_is_known : Fixed → Bool
  provenance_is_known fixed =
      fixed.user_presence_provenance_magic == 0xa5
      && not (fixed.user_presence_provenance_flags / 2 ^ 7 % 2 == 0)

  unfoldable pub config_is_trusted : Fixed → Bool
  config_is_trusted fixed =
      if build.debug_hid
      then true
      else if not (provenance_is_known fixed)
      then false
      else fixed.user_presence_provenance_flags % 2 == 0

  abbrev with_defaults : Fixed → Fixed
  with_defaults fixed =
      mark_user_presence_provenance (record fixed { user_presence = build.defaults })

  -- The result says whether the settings were replaced.
  unfoldable pub sanitize_user_presence_config : Fixed → Bool × Fixed
  sanitize_user_presence_config fixed =
      if not (config_is_valid fixed.user_presence)
      then (true, with_defaults fixed)
      else if not (config_is_trusted fixed)
      then (true, with_defaults fixed)
      else (false, fixed)

  -- The payload of `store_reset_image`.
  unfoldable pub reset_payload : Payload
  reset_payload = record {
    fixed = mark_user_presence_provenance (record {
      pin_configured = 0;
      pin_retries = retries_default;
      user_presence_provenance_magic = 0;
      user_presence_provenance_flags = 0;
      pin_hash = replicate 16 0;
      user_presence = build.defaults;
    });
    credentials = record { slots = replicate build.max_credentials blank; credential_count = 0 };
  }
