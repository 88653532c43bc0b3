-- ===== src/Tests/Store.antt =====
-- src/credential_store.c at concrete inputs.
use meow_key.Prelude.{◌≡◌, true, false, List, [], ◌∷◌, none, some, replicate, refl}
use meow_key.Prelude.{All, arith, take, get_or, set}
use meow_key.Store.Slot.{
  CredentialRecord, blank, slot_is_valid, copy_record_to_slot, copy_slot_to_record, IsStorable,
}
use meow_key.Store.Slots.{
  Store, valid_count, store_add_credential, store_update_sign_count, first_slot, same_bytes,
}
use meow_key.Store.Slots.{
  store_delete_credential_by_slot, store_find_by_credential_id, slot_is_taken, holds_credential_id,
}
use meow_key.Store.Slots.{store_get_credential_by_slot}
use meow_key.Store.Search.{store_find_by_credential_id-found}
use meow_key.Store.Count.{IsCounted}
use meow_key.Store.Steps.{
  Operation, add, update, delete, operate_all, IsStorableIn, operate_all-IsCounted,
}
use meow_key.Store.Refused.{SameCredentials, add_refused}
use meow_key.Store.Added.{store_add_credential-get}

abbrev credential : CredentialRecord
credential = record {
  sign_count = 5;
  discoverable = true;
  cred_random_ready = false;
  credential_id_length = 2;
  private_key_length = 32;
  rp_id_length = 1;
  user_id_length = 0;
  user_name_length = 0;
  display_name_length = 0;
  credential_id = 1 ∷ 2 ∷ [];
  private_key = replicate 32 3;
  cred_random_with_uv = [];
  cred_random_without_uv = [];
  rp_id = 97 ∷ [];
  user_id = [];
  user_name = [];
  display_name = [];
}

storable : IsStorable credential
storable = record {
  some_id = omega arith;
  id = omega arith;
  key = refl;
  some_rp = omega arith;
  rp = omega arith;
  user = omega arith;
  name = omega arith;
  display = omega arith;
}

abbrev empty : Store
empty = record { slots = blank ∷ blank ∷ []; credential_count = 0 }

abbrev pub one : Store
one = record { slots = copy_record_to_slot credential ∷ blank ∷ []; credential_count = 1 }

added : store_add_credential true credential empty ≡ (some 0, one)
unfolding store_add_credential first_slot slot_is_valid blank
added = refl

store_add_credential-get_example :
    (store_get_credential_by_slot 0 one ≡ some credential)
    × (slot_is_valid (get_or empty.slots 0 blank) ≡ false)
    × (one.slots ≡ set empty.slots 0 (copy_record_to_slot credential))
store_add_credential-get_example = store_add_credential-get credential empty one 0 storable added

empty-IsCounted : IsCounted empty
unfolding valid_count slot_is_valid blank
empty-IsCounted = record { counted = refl; small = omega arith }

pub one-IsCounted : IsCounted one
unfolding valid_count slot_is_valid blank copy_record_to_slot
one-IsCounted = record { counted = refl; small = omega arith }

-- Two credentials, one of them not committed, an update, and a deletion.
abbrev operations : List Operation
operations = add true credential ∷ add false credential ∷ update true 0 9 ∷ delete true 0 ∷ []

each_fits : All IsStorableIn operations
unfolding IsStorableIn
each_fits = (storable, (storable, (tt, (tt, tt))))

operate_all-IsCounted_example : IsCounted (operate_all operations empty)
operate_all-IsCounted_example = operate_all-IsCounted operations empty each_fits empty-IsCounted

found_it :
    store_find_by_credential_id (1 ∷ 2 ∷ []) 2 one
    ≡ some (0, copy_slot_to_record (copy_record_to_slot credential))
unfolding store_find_by_credential_id first_slot holds_credential_id slot_is_valid same_bytes
    copy_record_to_slot
found_it = refl

store_find_by_credential_id-found_example :
    let r = copy_slot_to_record (copy_record_to_slot credential) in
    (store_get_credential_by_slot 0 one ≡ some r)
    × (r.credential_id_length ≡ 2)
    × (same_bytes 2 r.credential_id (1 ∷ 2 ∷ []) ≡ true)
    × All (λ slot. holds_credential_id (1 ∷ 2 ∷ []) 2 slot ≡ false) (take 0 one.slots)
store_find_by_credential_id-found_example =
    store_find_by_credential_id-found (1 ∷ 2 ∷ []) 2 one 0
      (copy_slot_to_record (copy_record_to_slot credential)) found_it

absent : store_find_by_credential_id (1 ∷ 3 ∷ []) 2 one ≡ none
unfolding store_find_by_credential_id first_slot holds_credential_id slot_is_valid same_bytes
    copy_record_to_slot blank
absent = refl

not_added : (store_add_credential false credential empty).0 ≡ none
unfolding store_add_credential first_slot slot_is_valid blank
not_added = refl

add_refused_example : SameCredentials empty (store_add_credential false credential empty).1
add_refused_example = add_refused false credential empty (omega arith) not_added

not_deleted : (store_delete_credential_by_slot false 0 one).0 ≡ false
unfolding store_delete_credential_by_slot slot_is_taken slot_is_valid copy_record_to_slot
not_deleted = refl

not_updated : (store_update_sign_count false 0 9 one).0 ≡ false
unfolding store_update_sign_count slot_is_taken slot_is_valid copy_record_to_slot
not_updated = refl
