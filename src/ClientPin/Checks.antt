-- ===== src/ClientPin/Checks.antt =====
-- The checks of src/client_pin.c: of a message's authentication, of a new PIN, and of a PIN that is
-- presented.
use meow_key.Prelude.{ℕ, suc, ◌-◌, false, ◌||◌, not, List, [], ◌∷◌}
use meow_key.Prelude.{none, some, take, length, ltb, ◌==◌, if◌then◌else◌}
use meow_key.ClientPin.Crypto.{Primitives, aes256_cbc_crypt, constant_time_equal}
use meow_key.ClientPin.State.{State, Env, status_ok, err_invalid_cbor, err_pin_auth_invalid}
use meow_key.ClientPin.State.{err_pin_policy_violation, err_pin_blocked, err_pin_invalid}
use meow_key.ClientPin.Responses.{set_pin_state}

-- `while (pin_length < length && decrypted_pin[pin_length] != 0u)`
unfoldable pub leading_nonzero : List ℕ → ℕ
leading_nonzero [] = 0
leading_nonzero (b ∷ rest) = let more = suc (leading_nonzero rest) in if b == 0 then 0 else more

-- A hash, or the status of the failure.
pub data PinHash : Type 0 where
  hashed : List ℕ → PinHash
  rejected : ℕ → PinHash

module _ (p : Primitives) where
  unfoldable pub validate_shared_secret_hmac : List ℕ → List ℕ → List ℕ → ℕ
  validate_shared_secret_hmac secret message provided =
      if not (length provided == 16) then err_pin_auth_invalid else elim (p.hmac secret message) [
        | none ↦ err_pin_auth_invalid
        | some expected ↦
            if constant_time_equal expected provided 16 then status_ok else err_pin_auth_invalid
      ]

  unfoldable pub hash_decrypted : List ℕ → PinHash
  hash_decrypted decrypted =
      let n = leading_nonzero decrypted in
      if ltb n 4 || ltb 63 n
      then rejected err_pin_policy_violation
      else elim (p.sha256 (take n decrypted)) [
        | none ↦ rejected err_invalid_cbor
        | some hash ↦ hashed hash
      ]

  unfoldable pub parse_new_pin_hash : List ℕ → List ℕ → PinHash
  parse_new_pin_hash secret new_pin_enc = elim (aes256_cbc_crypt p false secret new_pin_enc) [
    | none ↦ rejected err_invalid_cbor
    | some decrypted ↦ hash_decrypted (take (length new_pin_enc) decrypted)
  ]

-- A wrong PIN costs a retry, and the store is told.
unfoldable pub verify_pin_hash_or_consume_retry : Env → List ℕ → State → ℕ × State
verify_pin_hash_or_consume_retry env provided st =
    if constant_time_equal provided st.pin.pin_hash 16
    then (status_ok, st)
    else (let retries = st.pin.retries - 1 in
        let st' =
          if ltb 0 st.pin.retries
          then (set_pin_state env (record (st.pin) { retries = retries }) st).1
          else st in
        (if st'.pin.retries == 0 then err_pin_blocked else err_pin_invalid, st'))
