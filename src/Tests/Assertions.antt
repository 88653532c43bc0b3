-- ===== src/Tests/Assertions.antt =====
-- Assertions at concrete requests.
use meow_key.Prelude.{ℕ, true, List, [], ◌∷◌, ◌++◌, Option, none, some, replicate, take, length}
use meow_key.Prelude.{◌≡◌, refl, codes}
use meow_key.Cbor.Reader.{
  Reader, ok, reader_init, reader_take, read_length, read_initial, read_map_start, read_array_start,
  read_int, read_bytes, read_text, skip, skip_items, skip_view, skip_simple, skip_body,
}
use meow_key.Cbor.Writer.{
  writer_init, writer_put, header_bytes, write_type_and_value, write_map_start, write_uint,
  write_int, write_bytes, write_text,
}
use meow_key.ClientPin.Responses.{Reply, respond}
use meow_key.Store.Slot.{
  CredentialRecord, blank, slot_is_valid, copy_record_to_slot, copy_slot_to_record,
}
use meow_key.Store.Slots.{
  Store, same_bytes, slot_is_taken, store_get_credential_by_slot, store_update_sign_count,
}
use meow_key.WebAuthn.Entries.{loop, is_text, copy_view_to_string, copy_view_to_bytes}
use meow_key.WebAuthn.GetRequest.{
  GetRequest, no_get_request, allow_entry, allow_descriptors, parse_allow_list, get_entry,
  next_get_entry, get_entries,
}
use meow_key.WebAuthn.GetAccepted.{
  Complete, Vouched, parse_get_assertion_request-Complete, parse_get_assertion_request-Vouched,
}
use meow_key.ClientPin.Crypto.{constant_time_equal, difference}
use meow_key.ClientPin.State.{State}
use meow_key.ClientPin.Request.{to_byte, bounded_bytes}
use meow_key.ClientPin.Handlers.{verify_auth, runtime_pin_token_is_usable, token_matches}
use meow_key.WebAuthn.Verified.{
  Checked, check_verification, get_verified, get_checked, parse_get_assertion_request,
}
use meow_key.WebAuthn.AuthData.{
  build_assertion_auth_data, optional_text, user_calls, build_get_assertion_response,
}
use meow_key.WebAuthn.Assertion.{
  build_hmac_secret_assertion_extensions, sign_assertion, signed_assertion, counted_assertion,
  respond_with_assertion,
}
use meow_key.WebAuthn.Matching.{
  is_of_rp, is_match, collect_from, collect_matching_slots, matching, collect_matching_slots-take,
}
use meow_key.WebAuthn.Answered.{Answered, respond_with_assertion-Answered}
use meow_key.WebAuthn.AllowList.{allow_descriptors-first}
use meow_key.WebAuthn.Isolation.{Served, get_assertion-Served}
use meow_key.WebAuthn.Session.{Session}
use meow_key.WebAuthn.Confirmation.{
  consume_recent_assertion_up_if_matching, recent_assertion_up_is_current,
  clear_recent_assertion_up, arm_recent_assertion_up,
}
use meow_key.WebAuthn.Assertions.{
  respond_from, queued, respond_and_arm, confirm_then_respond, queue_if_ok, assert_matching,
  assert_request, keyed_request, get_assertion,
}
use meow_key.Tests.Creation.{
  with_token, toy-hmac, toy, fresh, call, pressed, text_of, reply_of, session_of,
}

-- A credential of the rp "a".
abbrev credential : CredentialRecord
credential = record {
  sign_count = 5;
  discoverable = true;
  cred_random_ready = true;
  credential_id_length = 2;
  private_key_length = 32;
  rp_id_length = 1;
  user_id_length = 1;
  user_name_length = 0;
  display_name_length = 0;
  credential_id = 1 ∷ 2 ∷ [];
  private_key = replicate 32 3;
  cred_random_with_uv = [];
  cred_random_without_uv = [];
  rp_id = 97 ∷ [];
  user_id = 7 ∷ [];
  user_name = [];
  display_name = [];
}

abbrev one : Store
one = record { slots = blank ∷ copy_record_to_slot credential ∷ []; credential_count = 1 }

abbrev pub holding : Session
holding = record fresh { store = one }

abbrev toy_sign : List ℕ → List ℕ → Option (List ℕ)
toy_sign key hash = some (take 4 key ++ take 4 hash)

abbrev toy_image : GetRequest → List ℕ
toy_image r = replicate 3 1

-- The rp "a" and the client data's hash.
abbrev asking : List ℕ
asking = 0xa2 ∷ 1 ∷ text_of (codes "a") ++ (2 ∷ 0x58 ∷ 32 ∷ replicate 32 9)

abbrev asserted : Option (Reply × Session)
asserted = get_assertion toy toy_sign toy_image 4 call asking (length asking) 400 holding

asserts : asserted ≡ some ((0, (reply_of asserted).1), session_of asserted)
unfolding reader_init reader_take read_length read_initial read_map_start read_int read_bytes
    read_text same_bytes loop copy_view_to_string get_entry next_get_entry get_entries
    check_verification get_verified get_checked parse_get_assertion_request writer_init writer_put
    header_bytes write_type_and_value write_map_start write_uint write_int write_bytes write_text
    respond blank slot_is_valid copy_record_to_slot copy_slot_to_record slot_is_taken
    store_get_credential_by_slot store_update_sign_count build_assertion_auth_data optional_text
    user_calls build_get_assertion_response build_hmac_secret_assertion_extensions sign_assertion
    signed_assertion counted_assertion respond_with_assertion is_of_rp is_match collect_from
    collect_matching_slots consume_recent_assertion_up_if_matching recent_assertion_up_is_current
    clear_recent_assertion_up arm_recent_assertion_up respond_from queued respond_and_arm
    confirm_then_respond queue_if_ok assert_matching assert_request keyed_request get_assertion
asserts = refl

get_assertion-Served_example :
    Served toy toy_sign toy_image 4 call pressed asking
      (length asking)
      400
      holding
      (reply_of asserted).1
      (session_of asserted)
get_assertion-Served_example =
    get_assertion-Served toy toy_sign toy_image 4 call pressed asking (length asking) 400 holding
      (reply_of asserted).1 (session_of asserted) asserts

collect_matching_slots-take_example :
    collect_matching_slots (record { content = 97 ∷ []; size = 1 }) 128 one
    ≡ take 128 (matching (record { content = 97 ∷ []; size = 1 }) one.slots 0 2)
collect_matching_slots-take_example =
    collect_matching_slots-take (record { content = 97 ∷ []; size = 1 }) 128 one

abbrev requested : GetRequest
requested = record no_get_request {
  client_data_hash = some (replicate 32 9);
  rp_id = some (record { content = 97 ∷ []; size = 1 });
}

abbrev answered : Reply × Store
answered = respond_with_assertion toy none toy_sign true requested 1 none 400 one

answers_ok : answered ≡ ((0, answered.0.1), answered.1)
unfolding blank slot_is_valid copy_record_to_slot copy_slot_to_record same_bytes writer_init
    writer_put header_bytes write_type_and_value write_map_start write_uint write_int write_bytes
    write_text respond slot_is_taken store_get_credential_by_slot store_update_sign_count
    build_assertion_auth_data optional_text user_calls build_get_assertion_response
    build_hmac_secret_assertion_extensions sign_assertion signed_assertion counted_assertion
    respond_with_assertion
answers_ok = refl

respond_with_assertion-Answered_example :
    Answered toy none toy_sign true requested 1 none 400 one answered.0.1 answered.1
respond_with_assertion-Answered_example =
    respond_with_assertion-Answered toy none toy_sign true requested 1 none 400 one answered.0.1
      answered.1 answers_ok

-- Two descriptors, with the ids 7 and 8.
abbrev descriptors : List ℕ
descriptors =
    0xa1 ∷ text_of (codes "id") ++ (0x41 ∷ 7 ∷ 0xa1 ∷ text_of (codes "id")) ++ (0x41 ∷ 8 ∷ [])

abbrev first_allowed : GetRequest
first_allowed = record no_get_request {
  allow_credential_id = some (record { content = 7 ∷ []; size = 1 });
}

abbrev behind_first : Reader
behind_first = record { buffer = descriptors; length = 12; offset = 6 }

first_only :
    allow_descriptors 4 1 no_get_request (reader_init descriptors 12)
    ≡ ok first_allowed behind_first
unfolding reader_init reader_take read_length read_initial read_map_start read_bytes read_text skip
    skip_items skip_view skip_simple skip_body same_bytes loop is_text copy_view_to_bytes
    allow_entry allow_descriptors
first_only = refl

allow_descriptors-first_example :
    allow_descriptors 4 2 no_get_request (reader_init descriptors 12)
    ≡ ok first_allowed behind_first
allow_descriptors-first_example =
    allow_descriptors-first 4 no_get_request 1 (reader_init descriptors 12) first_allowed
      behind_first first_only refl

-- The same, with an authentication parameter.
abbrev asking_verified : List ℕ
asking_verified =
    0xa4 ∷ 1 ∷ text_of (codes "a")
    ++ (2 ∷ 0x58 ∷ 32 ∷ replicate 32 9)
    ++ (6 ∷ 0x50 ∷ replicate 16 0)
    ++ (7 ∷ 1 ∷ [])

abbrev request_of : Option (Checked GetRequest) → GetRequest
request_of none = no_get_request
request_of (some (status, r, pin)) = r

abbrev pin_of : Option (Checked GetRequest) → State
pin_of none = with_token
pin_of (some (status, r, pin)) = pin

abbrev read : Option (Checked GetRequest)
read = parse_get_assertion_request toy 4 1500 asking_verified (length asking_verified) with_token

reads : (read ≡ some (0, request_of read, pin_of read)) × ((request_of read).user_verified ≡ true)
unfolding reader_init reader_take read_length read_initial read_map_start read_int read_bytes
    read_text same_bytes loop copy_view_to_string get_entry next_get_entry get_entries
    check_verification get_verified get_checked parse_get_assertion_request to_byte bounded_bytes
    verify_auth runtime_pin_token_is_usable token_matches constant_time_equal difference
reads = (refl, refl)

parse_get_assertion_request-Complete_example : Complete (request_of read)
parse_get_assertion_request-Complete_example =
    parse_get_assertion_request-Complete toy 4 1500 asking_verified (length asking_verified)
      with_token (request_of read) (pin_of read) reads.0

parse_get_assertion_request-Vouched_example : Vouched toy 1500 (request_of read) with_token
parse_get_assertion_request-Vouched_example =
    parse_get_assertion_request-Vouched toy toy-hmac 4 1500 asking_verified (length asking_verified)
      with_token (request_of read) (pin_of read) reads.0 reads.1

-- An allow list of two credentials, and the options behind it.
abbrev asking_two : List ℕ
asking_two =
    0xa4 ∷ 1 ∷ text_of (codes "a")
    ++ (2 ∷ 0x58 ∷ 32 ∷ replicate 32 9)
    ++ (3 ∷ 0x82 ∷ descriptors)
    ++ (5 ∷ 0xa1 ∷ text_of (codes "up"))
    ++ (0xf5 ∷ [])

-- Such a request is refused.
two_refused :
    parse_get_assertion_request toy 4 1500 asking_two (length asking_two) with_token
    ≡ some (0x12, no_get_request, with_token)
unfolding reader_init reader_take read_length read_initial read_map_start read_array_start read_int
    read_bytes read_text same_bytes loop is_text copy_view_to_string copy_view_to_bytes allow_entry
    allow_descriptors parse_allow_list get_entry next_get_entry get_entries
    parse_get_assertion_request skip skip_items skip_view skip_simple skip_body
two_refused = refl
