-- ===== src/ClientPin/Responses.antt =====
-- The responses of src/client_pin.c, and the changes of its state.
use meow_key.Prelude.{ℕ, Bool, List, [], ◌∷◌}
use meow_key.Prelude.{Option, none, some, take, drop, length, ◌==◌, if◌then◌else◌, pos, negsuc}
use meow_key.Cbor.Writer.{writer_init}
use meow_key.Cbor.Writer.Emits.{Call, map_start, int, bytes, perform_all}
use meow_key.ClientPin.State.{PinState, State, Env, status_ok, err_invalid_cbor}

-- A status and the bytes of the response, which are sent if the status is OK.
abbrev pub Reply : Type 0
Reply = ℕ × List ℕ

abbrev pub failure : ℕ → Reply
failure status = (status, [])

-- A response of the writer, or `err_invalid_cbor` where it does not fit.
unfoldable pub respond : ℕ → List Call → Reply
respond capacity calls =
    let w = perform_all calls (writer_init capacity) in
    if w.failed then failure err_invalid_cbor else (status_ok, w.bytes)

-- `meowkey_store_set_pin_state`: the state in memory changes whether or not the commit succeeds.
unfoldable pub set_pin_state : Env → PinState → State → Bool × State
set_pin_state env pin st = (env.commits, record st { pin = pin })

unfoldable pub clear_runtime_pin_token : State → State
clear_runtime_pin_token st = record st { runtime_pin_token = none }

unfoldable pub rotate_runtime_pin_token : Env → State → State
rotate_runtime_pin_token env st = record st {
  runtime_pin_token = some (env.random_token, env.now_ms);
}

-- `load_key_agreement`: a public key of another size than 65 bytes is not used.
unfoldable pub load_key_agreement : Env → State → State
load_key_agreement env st = record st {
  key_agreement = elim env.keypair [
    | none ↦ none
    | some (private, public) ↦ if length public == 65 then some (private, public) else none
  ];
}

unfoldable pub build_retries_response : ℕ → ℕ → Reply
build_retries_response capacity retries =
    respond capacity (map_start 1 ∷ int (pos 3) ∷ int (pos retries) ∷ [])

unfoldable pub key_agreement_calls : List ℕ → List Call
key_agreement_calls public =
    map_start 1
    ∷ int (pos 1)
    ∷ map_start 5
    ∷ int (pos 1)
    ∷ int (pos 2)
    ∷ int (pos 3)
    ∷ int (negsuc 24)
    ∷ int (negsuc 0)
    ∷ int (pos 1)
    ∷ int (negsuc 1)
    ∷ bytes (take 32 (drop 1 public))
    ∷ int (negsuc 2)
    ∷ bytes (take 32 (drop 33 public))
    ∷ []

unfoldable pub key_agreement_reply : ℕ → Option (List ℕ × List ℕ) → Reply
key_agreement_reply capacity none = failure err_invalid_cbor
key_agreement_reply capacity (some (private, public)) =
    respond capacity (key_agreement_calls public)

unfoldable pub build_key_agreement_response : Env → ℕ → State → Reply × State
build_key_agreement_response env capacity st =
    let st' : State = elim st.key_agreement [ none ↦ load_key_agreement env st | some k ↦ st ] in
    (key_agreement_reply capacity st'.key_agreement, st')

unfoldable pub build_token_response : ℕ → List ℕ → Reply
build_token_response capacity token =
    respond capacity (map_start 1 ∷ int (pos 2) ∷ bytes token ∷ [])

unfoldable pub write_empty_map : ℕ → Reply
write_empty_map capacity = respond capacity (map_start 0 ∷ [])
