-- ===== src/Tests/Creation.antt =====
-- The creation of a credential at a concrete request.
use meow_key.Prelude.{
  ℕ, ◌+◌, true, false, List, [], ◌∷◌, ◌++◌, Option, none, some, replicate, length,
}
use meow_key.Prelude.{◌≡◌, refl, sym, ap, codes}
use meow_key.Cbor.Reader.{
  reader_init, reader_take, read_length, read_initial, read_map_start, read_array_start, read_int,
  read_bool, read_bytes, read_text,
}
use meow_key.ClientPin.Crypto.{Primitives, constant_time_equal, difference}
use meow_key.ClientPin.State.{State}
use meow_key.ClientPin.Responses.{Reply, failure}
use meow_key.ClientPin.Request.{to_byte, is_int, bounded_bytes}
use meow_key.ClientPin.Handlers.{verify_auth, runtime_pin_token_is_usable, token_matches}
use meow_key.Store.Slot.{blank}
use meow_key.Store.Slots.{same_bytes}
use meow_key.WebAuthn.Entries.{loop, is_text, copy_view_to_string, copy_view_to_bytes}
use meow_key.WebAuthn.MakeRequest.{
  MakeRequest, no_make_request, rp_entry, parse_rp_entity, user_entry, parse_user_entity,
  param_entry, pub_key_cred_param, parse_pub_key_cred_params, make_entry, make_entries,
}
use meow_key.WebAuthn.Verified.{
  Checked, check_verification, make_verified, make_checked, parse_make_credential_request,
}
use meow_key.WebAuthn.Accepted.{Accepted, parse_make_credential_request-Accepted}
use meow_key.WebAuthn.UserVerified.{Vouched, parse_make_credential_request-Vouched}
use meow_key.WebAuthn.Session.{Session, Call, no_pending, make_credential}
use meow_key.Prelude.{arith}
use meow_key.UserPresence.Config.{Config}
use meow_key.UserPresence.Wait.{Sample, ended, wait_for_confirmation}
use meow_key.UserPresence.Wait.Taps.{Waited}

abbrev pub toy : Primitives
toy = record {
  sha256 = λ m. some (replicate 32 (length m));
  hmac = λ k m. some (replicate 32 0);
  aes_cbc = λ b k m. some m;
  ecdh_x = λ k q. some q;
}

pub toy-hmac : (key message code : List ℕ) → toy.hmac key message ≡ some code → length code ≡ 32
toy-hmac key message code e =
    let q : replicate 32 0 ≡ code = cc in ap (λ (l : List ℕ). length l) (sym q)

-- A PIN is configured, and a token was issued at 1000 ms.
abbrev pub with_token : State
with_token = record {
  key_agreement = none;
  runtime_pin_token = some (replicate 32 5, 1000);
  pin = record { configured = true; retries = 8; pin_hash = replicate 16 7 };
}

abbrev pub fresh : Session
fresh = record {
  pin = with_token;
  store = record { slots = blank ∷ []; credential_count = 0 };
  pending = no_pending;
  recent = record { active = false; request_match_key = []; granted_ms = 0 };
}

abbrev pub call : Call
call = record {
  verified_ms = 1500;
  asked_ms = 1500;
  granted_ms = 2500;
  used_ms = 2600;
  wait_status = 0;
  commits = true;
  keypair = some (replicate 32 1, replicate 65 2);
  credential_id = replicate 32 3;
  random_with_uv = replicate 32 4;
  random_without_uv = replicate 32 5;
}

-- BOOTSEL as the button, one tap.
abbrev one_tap : Config
one_tap = record {
  source = 1;
  gpio_pin = 0;
  gpio_active_low = 1;
  tap_count = 1;
  gesture_window_ms = 750;
  request_timeout_ms = 8000;
}

abbrev one_press : List Sample
one_press =
    record { check_ms = 10; now_ms = 10; pressed = false }
    ∷ record { check_ms = 20; now_ms = 20; pressed = true }
    ∷ []

-- A press that ends the wait.
pub press_ends : wait_for_confirmation one_tap 0 false one_press ≡ ended 0
unfolding wait_for_confirmation
press_ends = refl

-- The wait of that call: one press of the button.
abbrev pub pressed : Waited 0
pressed = record {
  config = one_tap;
  start_ms = 0;
  level = false;
  samples = one_press;
  some_tap = omega arith;
  ends = press_ends;
}

-- A text string shorter than 24 bytes.
abbrev pub text_of : List ℕ → List ℕ
text_of content = (0x60 + length content) ∷ content

-- A user 7 of the rp "a", with ES256 and an authentication parameter.
abbrev pub creation : List ℕ
creation =
    0xa6 ∷ 1 ∷ 0x58 ∷ 32 ∷ replicate 32 9
    ++ (2 ∷ 0xa1 ∷ text_of (codes "id"))
    ++ text_of (codes "a")
    ++ (3 ∷ 0xa1 ∷ text_of (codes "id"))
    ++ (0x41 ∷ 7 ∷ [])
    ++ (4 ∷ 0x81 ∷ 0xa2 ∷ text_of (codes "alg"))
    ++ (0x26 ∷ text_of (codes "type"))
    ++ text_of (codes "public-key")
    ++ (8 ∷ 0x50 ∷ replicate 16 0)
    ++ (9 ∷ 1 ∷ [])

-- The parts of a result, or those of a call that does nothing.
abbrev pub reply_of : Option (Reply × Session) → Reply
reply_of none = failure 0x12
reply_of (some (reply, s)) = reply

abbrev pub session_of : Option (Reply × Session) → Session
session_of none = fresh
session_of (some (reply, s)) = s

abbrev request_of : Option (Checked MakeRequest) → MakeRequest
request_of none = no_make_request
request_of (some (status, r, pin)) = r

abbrev pin_of : Option (Checked MakeRequest) → State
pin_of none = with_token
pin_of (some (status, r, pin)) = pin

abbrev read : Option (Checked MakeRequest)
read = parse_make_credential_request toy 4 1500 fresh.store creation (length creation) with_token

abbrev made : Option (Reply × Session)
made = make_credential toy 4 call creation (length creation) 400 fresh

reads : (read ≡ some (0, request_of read, pin_of read)) × ((request_of read).user_verified ≡ true)
unfolding reader_init reader_take read_length read_initial read_map_start read_array_start read_int
    read_bool read_bytes read_text to_byte is_int bounded_bytes same_bytes loop is_text
    copy_view_to_string copy_view_to_bytes rp_entry parse_rp_entity user_entry parse_user_entity
    param_entry pub_key_cred_param parse_pub_key_cred_params make_entry make_entries
    check_verification make_verified make_checked parse_make_credential_request verify_auth
    runtime_pin_token_is_usable token_matches constant_time_equal difference
reads = (refl, refl)

parse_make_credential_request-Accepted_example : Accepted (request_of read)
parse_make_credential_request-Accepted_example =
    parse_make_credential_request-Accepted toy 4 1500 fresh.store creation (length creation)
      with_token (request_of read) (pin_of read) reads.0

parse_make_credential_request-Vouched_example : Vouched toy 1500 (request_of read) with_token
parse_make_credential_request-Vouched_example =
    parse_make_credential_request-Vouched toy toy-hmac 4 1500 fresh.store creation (length creation)
      with_token (request_of read) (pin_of read) reads.0 reads.1
