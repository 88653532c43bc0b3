-- ===== src/WebAuthn/Assertion.antt =====
-- One assertion of src/webauthn.c, from a slot to the response.
use meow_key.Prelude.{
  ℕ, ◌+◌, ◌%◌, Bool, true, false, ◌&&◌, ◌||◌, not, List, [], ◌∷◌, ◌++◌, Option, none, some,
}
use meow_key.Prelude.{length, take, drop, ltb, ◌==◌, if◌then◌else◌, add32, codes}
use meow_key.Cbor.Writer.Emits.{map_start, bytes, text}
use meow_key.ClientPin.Crypto.{Primitives, aes256_cbc_crypt, derive_shared_secret}
use meow_key.ClientPin.Checks.{validate_shared_secret_hmac}
use meow_key.ClientPin.Responses.{Reply, failure, respond}
use meow_key.Store.Slot.{CredentialRecord}
use meow_key.Store.Slots.{Store, store_get_credential_by_slot, store_update_sign_count}
use meow_key.WebAuthn.Entries.{Bytes, no_bytes}
use meow_key.WebAuthn.GetRequest.{GetRequest}
use meow_key.WebAuthn.AuthData.{build_assertion_auth_data, build_get_assertion_response}

-- A field of the request that was set to zero before the parser ran.
abbrev pub or_zero : Option Bytes → Bytes
or_zero none = no_bytes
or_zero (some b) = b

abbrev pub or_default : ℕ → Option ℕ → ℕ
or_default d none = d
or_default d (some n) = n

abbrev pub or_empty : Option (List ℕ) → List ℕ
or_empty none = []
or_empty (some l) = l

-- The primitives; the pair of keys of the key agreement; and the signature of a hash with a private
-- key, as mbedtls writes it.
module _ (p : Primitives) (key_agreement : Option (List ℕ × List ℕ))
    (sign : List ℕ → List ℕ → Option (List ℕ)) where
  -- The outputs of the salts: of 32 bytes each, one or two.
  unfoldable pub salt_outputs : List ℕ → List ℕ → Bool → Option (List ℕ)
  salt_outputs cred_random salts two = elim (p.hmac cred_random (take 32 salts)) [
    | none ↦ none
    | some first ↦
        if not two then some first else elim (p.hmac cred_random (take 32 (drop 32 salts))) [
          | none ↦ none
          | some second ↦ some (first ++ second)
        ]
  ]

  unfoldable pub hmac_secret_outputs : CredentialRecord → GetRequest → List ℕ → List ℕ → Reply
  hmac_secret_outputs r request secret salts =
      elim (salt_outputs
        (if request.user_verified then r.cred_random_with_uv else r.cred_random_without_uv) salts
        ((or_zero request.hmac_secret_salt_enc).size == 64)) [
          | none ↦ failure 0x12
          | some secrets ↦ elim (aes256_cbc_crypt p true secret secrets) [
            | none ↦ failure 0x02
            | some encrypted ↦
                respond 128 (map_start 1 ∷ text (codes "hmac-secret") ∷ bytes encrypted ∷ [])
          ]
        ]

  unfoldable pub build_hmac_secret_assertion_extensions : CredentialRecord → GetRequest → Reply
  build_hmac_secret_assertion_extensions r request =
      let salt_enc = or_zero request.hmac_secret_salt_enc in
      let salt_auth = or_zero request.hmac_secret_salt_auth in
      if not request.hmac_secret_requested || not r.cred_random_ready
      then (0, [])
      else if not (or_default 1 request.hmac_secret_protocol == 1)
      then failure 0x02
      else if (not (salt_enc.size == 32) && not (salt_enc.size == 64))
          || not (salt_enc.size % 16 == 0)
      then failure 0x02
      else elim (derive_shared_secret p key_agreement
          (or_empty request.hmac_secret_key_agreement)) [
            | none ↦ failure 0x02
            | some secret ↦
                let auth_status =
                  validate_shared_secret_hmac p secret salt_enc.content salt_auth.content in
                if not (auth_status == 0)
                then failure auth_status
                else elim (aes256_cbc_crypt p false secret salt_enc.content) [
                  | none ↦ failure 0x02
                  | some salts ↦ hmac_secret_outputs r request secret salts
                ]
          ]

  unfoldable pub sign_assertion : CredentialRecord → List ℕ → List ℕ → Reply
  sign_assertion r auth_data client_data_hash =
      if ltb 192 (length auth_data + 32)
      then failure 0x12
      else elim (p.sha256 (auth_data ++ client_data_hash)) [
        | none ↦ failure 0x12
        | some message_hash ↦ elim (sign (take r.private_key_length r.private_key) message_hash) [
          | none ↦ failure 0x22
          | some signature ↦ (0, signature)
        ]
      ]

  -- From the auth data on; `appends` says whether the count's way to the flash succeeds.
  unfoldable pub signed_assertion :
      Bool → CredentialRecord → List ℕ → List ℕ → ℕ → Option ℕ → ℕ → Store → Reply × Store
  signed_assertion appends r auth_data client_data_hash slot_index number_of_credentials capacity
        st =
      let (signed, signature) = sign_assertion r auth_data client_data_hash in
      if not (signed == 0)
      then (failure signed, st)
      else (let (updated, st') = store_update_sign_count appends slot_index r.sign_count st in
          if not updated then (failure 0x22, st') else (
            build_get_assertion_response r auth_data signature number_of_credentials capacity,
            st',
          ))

  unfoldable pub counted_assertion :
      Bool → GetRequest → CredentialRecord → ℕ → Option ℕ → ℕ → Store → Reply × Store
  counted_assertion appends request r slot_index number_of_credentials capacity st =
      let (status, extensions) = build_hmac_secret_assertion_extensions r request in
      if not (status == 0)
      then (failure status, st)
      else elim (build_assertion_auth_data p r.rp_id r.rp_id_length r.sign_count extensions
          request.user_verified 160) [
            | none ↦ (failure 0x12, st)
            | some auth_data ↦
                signed_assertion appends r auth_data (or_empty request.client_data_hash) slot_index
                  number_of_credentials capacity st
          ]

  unfoldable pub respond_with_assertion :
      Bool → GetRequest → ℕ → Option ℕ → ℕ → Store → Reply × Store
  respond_with_assertion appends request slot_index number_of_credentials capacity st =
      elim (store_get_credential_by_slot slot_index st) [
        | none ↦ (failure 0x22, st)
        | some r ↦
            counted_assertion appends request (record r { sign_count = add32 r.sign_count 1 })
              slot_index number_of_credentials capacity st
      ]
