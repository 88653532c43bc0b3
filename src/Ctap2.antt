-- ===== src/Ctap2.antt =====
-- CTAP2 (src/ctap2.c): the information about the authenticator, and the dispatch of commands.
pub mod Info
pub mod Counted
use meow_key.Prelude.{ℕ, ◌-◌, Bool, true, false, List, [], ◌∷◌, ◌++◌, Option, none, some}
use meow_key.Prelude.{length, ltb, ◌==◌, if◌then◌else◌, codes, pos, negsuc}
use meow_key.Cbor.Writer.{writer_init}
use meow_key.Cbor.Writer.Emits.{map_start, array_start, int, bytes, text, bool, perform_all}
use meow_key.Cbor.Writer.Emits
use meow_key.ClientPin.Crypto.{Primitives}
use meow_key.ClientPin.State.{State, Env}
use meow_key.ClientPin.Responses.{Reply, failure}
use meow_key.ClientPin.Handlers.{client_pin_handle}
use meow_key.WebAuthn.GetRequest.{GetRequest}
use meow_key.WebAuthn.AuthData.{aaguid}
use meow_key.WebAuthn.Session.{Session, Call, make_credential}
use meow_key.WebAuthn.Assertions.{get_assertion, next_assertion}

-- The writes of `ctap2_build_get_info`, whose AAGUID has the bytes of the one in src/webauthn.c.
unfoldable pub get_info_calls : Bool → List Emits.Call
get_info_calls configured =
    map_start 8
    ∷ int (pos 1)
    ∷ array_start 1
    ∷ text (codes "FIDO_2_0")
    ∷ int (pos 2)
    ∷ array_start 1
    ∷ text (codes "hmac-secret")
    ∷ int (pos 3)
    ∷ bytes aaguid
    ∷ int (pos 4)
    ∷ map_start 6
    ∷ text (codes "rk")
    ∷ bool true
    ∷ text (codes "up")
    ∷ bool true
    ∷ text (codes "uv")
    ∷ bool false
    ∷ text (codes "plat")
    ∷ bool false
    ∷ text (codes "clientPin")
    ∷ bool configured
    ∷ text (codes "makeCredUvNotRqd")
    ∷ bool true
    ∷ int (pos 5)
    ∷ int (pos 1024)
    ∷ int (pos 6)
    ∷ array_start 1
    ∷ int (pos 1)
    ∷ int (pos 9)
    ∷ array_start 1
    ∷ text (codes "usb")
    ∷ int (pos 10)
    ∷ array_start 1
    ∷ map_start 2
    ∷ text (codes "type")
    ∷ text (codes "public-key")
    ∷ text (codes "alg")
    ∷ int (negsuc 6)
    ∷ []

unfoldable pub build_get_info : ℕ → Bool → Reply
build_get_info capacity configured =
    let w = perform_all (get_info_calls configured) (writer_init capacity) in
    if w.failed then failure 0x03 else (0, w.bytes)

-- The status byte, and the body if the status is OK.
unfoldable pub answer : Reply → List ℕ
answer (status, body) = if status == 0 then 0 ∷ body else status ∷ []

-- The reply of the client PIN's handler, with its state put back.
abbrev pub with_pin : Session → Option (Reply × State) → Option (Reply × Session)
with_pin s none = none
with_pin s (some (reply, pin)) = some (reply, record s { pin = pin })

abbrev pub answered : Option (Reply × Session) → Option (List ℕ × Session)
answered none = none
answered (some (reply, s)) = some (answer reply, s)

-- `sign` and `image` are as for the handlers of assertions.
module _ (p : Primitives) (sign : List ℕ → List ℕ → Option (List ℕ)) (image : GetRequest → List ℕ)
    (fuel : ℕ) where
  unfoldable pub dispatch : Call → Env → ℕ → List ℕ → ℕ → Session → Option (Reply × Session)
  dispatch c env command body capacity s =
      if command == 0x01
      then make_credential p fuel c body (length body) capacity s
      else if command == 0x02
      then get_assertion p sign image fuel c body (length body) capacity s
      else if command == 0x08
      then some (next_assertion p sign image c (length body) capacity s)
      else if command == 0x04
      then some (build_get_info capacity s.pin.pin.configured, s)
      else if command == 0x06
      then with_pin s (client_pin_handle p env capacity fuel body (length body) s.pin)
      else some (failure 0x01, s)

  -- `ctap2_handle_cbor`: the bytes of the response; `none` says that the fuel of `skip` ran out.
  unfoldable pub ctap2_handle_cbor : Call → Env → List ℕ → ℕ → Session → Option (List ℕ × Session)
  ctap2_handle_cbor c env [] capacity s = some (0x03 ∷ [], s)
  ctap2_handle_cbor c env (command ∷ body) capacity s =
      answered (dispatch c env command body (capacity - 1) s)
