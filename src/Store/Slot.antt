-- ===== src/Store/Slot.antt =====
-- A slot of src/credential_store.c, the record of src/credential_store.h that it keeps, and the copies
-- between the two, in a build without the simulated secure element, whose slots are not wrapped.
use meow_key.Prelude.{ℕ, ◌≤◌, ◌<◌, Bool, true, false, ◌||◌, not, List}
use meow_key.Prelude.{◌≡◌, refl, arith, replicate, ltb, leb, ◌==◌, if◌then◌else◌, low_byte}

-- `meowkey_credential_record_t`
pub record CredentialRecord : Type 0 where
  pub sign_count : ℕ
  pub discoverable : Bool
  pub cred_random_ready : Bool
  pub credential_id_length : ℕ
  pub private_key_length : ℕ
  pub rp_id_length : ℕ
  pub user_id_length : ℕ
  pub user_name_length : ℕ
  pub display_name_length : ℕ
  pub credential_id : List ℕ
  pub private_key : List ℕ
  pub cred_random_with_uv : List ℕ
  pub cred_random_without_uv : List ℕ
  pub rp_id : List ℕ
  pub user_id : List ℕ
  pub user_name : List ℕ
  pub display_name : List ℕ

-- `meowkey_store_slot_t`, without its reserved bytes, which such a build leaves at zero.
pub record Slot : Type 0 where
  pub in_use : ℕ
  pub discoverable : ℕ
  pub cred_random_ready : ℕ
  pub credential_id_length : ℕ
  pub private_key_length : ℕ
  pub rp_id_length : ℕ
  pub user_id_length : ℕ
  pub user_name_length : ℕ
  pub display_name_length : ℕ
  pub sign_count : ℕ
  pub credential_id : List ℕ
  pub private_key : List ℕ
  pub cred_random_with_uv : List ℕ
  pub cred_random_without_uv : List ℕ
  pub rp_id : List ℕ
  pub user_id : List ℕ
  pub user_name : List ℕ
  pub display_name : List ℕ

-- `memset(slot, 0, sizeof(*slot))`
unfoldable pub blank : Slot
blank = record {
  in_use = 0;
  discoverable = 0;
  cred_random_ready = 0;
  credential_id_length = 0;
  private_key_length = 0;
  rp_id_length = 0;
  user_id_length = 0;
  user_name_length = 0;
  display_name_length = 0;
  sign_count = 0;
  credential_id = replicate 32 0;
  private_key = replicate 32 0;
  cred_random_with_uv = replicate 32 0;
  cred_random_without_uv = replicate 32 0;
  rp_id = replicate 64 0;
  user_id = replicate 64 0;
  user_name = replicate 64 0;
  display_name = replicate 96 0;
}

-- `store_slot_is_valid`
unfoldable pub slot_is_valid : Slot → Bool
slot_is_valid slot =
    if not (slot.in_use == 1)
    then false
    else if slot.credential_id_length == 0 || ltb 32 slot.credential_id_length
    then false
    else if not (slot.private_key_length == 32)
    then false
    else if slot.rp_id_length == 0 || leb 64 slot.rp_id_length
    then false
    else if ltb 64 slot.user_id_length
        || (leb 64 slot.user_name_length || leb 96 slot.display_name_length)
    then false
    else true

abbrev pub flag : Bool → ℕ
flag b = if b then 1 else 0

unfoldable pub copy_record_to_slot : CredentialRecord → Slot
copy_record_to_slot r = record {
  in_use = 1;
  discoverable = flag r.discoverable;
  cred_random_ready = flag r.cred_random_ready;
  credential_id_length = low_byte r.credential_id_length;
  private_key_length = low_byte r.private_key_length;
  rp_id_length = low_byte r.rp_id_length;
  user_id_length = low_byte r.user_id_length;
  user_name_length = low_byte r.user_name_length;
  display_name_length = low_byte r.display_name_length;
  sign_count = r.sign_count;
  credential_id = r.credential_id;
  private_key = r.private_key;
  cred_random_with_uv = r.cred_random_with_uv;
  cred_random_without_uv = r.cred_random_without_uv;
  rp_id = r.rp_id;
  user_id = r.user_id;
  user_name = r.user_name;
  display_name = r.display_name;
}

unfoldable pub copy_slot_to_record : Slot → CredentialRecord
copy_slot_to_record s = record {
  sign_count = s.sign_count;
  discoverable = not (s.discoverable == 0);
  cred_random_ready = not (s.cred_random_ready == 0);
  credential_id_length = s.credential_id_length;
  private_key_length = s.private_key_length;
  rp_id_length = s.rp_id_length;
  user_id_length = s.user_id_length;
  user_name_length = s.user_name_length;
  display_name_length = s.display_name_length;
  credential_id = s.credential_id;
  private_key = s.private_key;
  cred_random_with_uv = s.cred_random_with_uv;
  cred_random_without_uv = s.cred_random_without_uv;
  rp_id = s.rp_id;
  user_id = s.user_id;
  user_name = s.user_name;
  display_name = s.display_name;
}

-- The lengths that the fields of a record have room for.
pub record IsStorable (r : CredentialRecord) : Type 0 where
  pub some_id : 0 < r.credential_id_length
  pub id : r.credential_id_length ≤ 32
  pub key : r.private_key_length ≡ 32
  pub some_rp : 0 < r.rp_id_length
  pub rp : r.rp_id_length < 64
  pub user : r.user_id_length ≤ 64
  pub name : r.user_name_length < 64
  pub display : r.display_name_length < 96

pub copy_record_to_slot-valid :
    (r : CredentialRecord) → IsStorable r → slot_is_valid (copy_record_to_slot r) ≡ true
unfolding copy_record_to_slot slot_is_valid
copy_record_to_slot-valid r ok = ground arith

pub blank-invalid : slot_is_valid blank ≡ false
unfolding blank slot_is_valid
blank-invalid = refl
