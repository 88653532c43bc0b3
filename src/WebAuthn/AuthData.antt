-- ===== src/WebAuthn/AuthData.antt =====
-- The authenticator data and the responses that src/webauthn.c builds.
use meow_key.Prelude.{
  ℕ, ◌+◌, ◌/◌, ◌^◌, Bool, true, ◌||◌, not, List, [], ◌∷◌, ◌++◌, Option, none, some,
}
use meow_key.Prelude.{length, take, drop, ltb, ◌==◌, if◌then◌else◌, low_byte, be32, codes}
use meow_key.Prelude.{pos, negsuc}
use meow_key.Cbor.Writer.Emits.{Call, map_start, int, bytes, text, bool}
use meow_key.ClientPin.Crypto.{Primitives}
use meow_key.ClientPin.Responses.{Reply, failure, respond}
use meow_key.Store.Slot.{CredentialRecord}
use meow_key.WebAuthn.MakeRequest.{MakeRequest}

-- `k_aaguid`
abbrev pub aaguid : List ℕ
aaguid = codes "MeowKey" ++ 0 ∷ codes "RP2350" ++ 0 ∷ 1 ∷ []

unfoldable pub cose_public_key_calls : List ℕ → List Call
cose_public_key_calls public_key =
    map_start 5
    ∷ int (pos 1)
    ∷ int (pos 2)
    ∷ int (pos 3)
    ∷ int (negsuc 6)
    ∷ int (negsuc 0)
    ∷ int (pos 1)
    ∷ int (negsuc 1)
    ∷ bytes (take 32 (drop 1 public_key))
    ∷ int (negsuc 2)
    ∷ bytes (take 32 (drop 33 public_key))
    ∷ []

-- The key in 96 bytes.
unfoldable pub build_cose_public_key : List ℕ → Reply
build_cose_public_key public_key = respond 96 (cose_public_key_calls public_key)

-- The extensions in 32 bytes.
unfoldable pub build_hmac_secret_create_extensions : Bool → Reply
build_hmac_secret_create_extensions requested =
    if not requested
    then (0, [])
    else respond 32 (map_start 1 ∷ text (codes "hmac-secret") ∷ bool true ∷ [])

-- The bits of the flags: a user verified, and extensions.
abbrev pub flags_of : ℕ → Bool → List ℕ → ℕ
flags_of base user_verified extensions =
    base + (if user_verified then 0x04 else 0) + (if ltb 0 (length extensions) then 0x80 else 0)

-- The auth data, or `none` where the function fails.
unfoldable pub build_attested_auth_data :
    Primitives → CredentialRecord → List ℕ → List ℕ → Bool → ℕ → Option (List ℕ)
build_attested_auth_data p r public_key extensions user_verified capacity =
    elim (p.sha256 (take r.rp_id_length r.rp_id)) [
      | none ↦ none
      | some rp_id_hash ↦
          let (status, cose_key) = build_cose_public_key public_key in
          if not (status == 0)
            || ltb capacity (55 + r.credential_id_length + length cose_key + length extensions)
          then none
          else some (
              rp_id_hash
              ++ flags_of 0x41 user_verified extensions ∷ 0 ∷ 0 ∷ 0 ∷ 0 ∷ aaguid
              ++ low_byte (r.credential_id_length / 2 ^ 8)
                ∷ low_byte r.credential_id_length
                ∷ take r.credential_id_length r.credential_id
              ++ cose_key
              ++ extensions)
    ]

unfoldable pub build_make_credential_response :
    Primitives → CredentialRecord → MakeRequest → List ℕ → ℕ → Reply
build_make_credential_response p r request public_key capacity =
    let (status, extensions) = build_hmac_secret_create_extensions request.hmac_secret_requested in
    elim (build_attested_auth_data p r public_key extensions request.user_verified 256) [
      | none ↦ failure 0x12
      | some auth_data ↦
          if not (status == 0)
          then failure 0x12
          else respond capacity (
              map_start 3
              ∷ int (pos 1)
              ∷ text (codes "none")
              ∷ int (pos 2)
              ∷ bytes auth_data
              ∷ int (pos 3)
              ∷ map_start 0
              ∷ [])
    ]

unfoldable pub build_assertion_auth_data :
    Primitives → List ℕ → ℕ → ℕ → List ℕ → Bool → ℕ → Option (List ℕ)
build_assertion_auth_data p rp_id rp_id_length sign_count extensions user_verified capacity =
    if ltb capacity (37 + length extensions)
    then none
    else elim (p.sha256 (take rp_id_length rp_id)) [
      | none ↦ none
      | some rp_id_hash ↦
          some
            (rp_id_hash ++ flags_of 0x01 user_verified extensions ∷ be32 sign_count ++ extensions)
    ]

-- The name and the display name are left out where they are empty.
unfoldable pub optional_text : List ℕ → List ℕ → ℕ → List Call
optional_text key content size = if ltb 0 size then text key ∷ text (take size content) ∷ [] else []

unfoldable pub user_calls : CredentialRecord → List Call
user_calls r =
    if ltb 0 r.user_id_length
    then (int (pos 4)
          ∷ map_start (
              1
              + (if ltb 0 r.user_name_length then 1 else 0)
              + (if ltb 0 r.display_name_length then 1 else 0))
          ∷ text (codes "id")
          ∷ bytes (take r.user_id_length r.user_id)
          ∷ optional_text (codes "name") r.user_name r.user_name_length
        ++ optional_text (codes "displayName") r.display_name r.display_name_length)
    else []

-- `some n` for the number of credentials, where it is included.
unfoldable pub build_get_assertion_response :
    CredentialRecord → List ℕ → List ℕ → Option ℕ → ℕ → Reply
build_get_assertion_response r auth_data signature number_of_credentials capacity =
    respond capacity (
      map_start (
          (if ltb 0 r.user_id_length then 4 else 3)
          + elim number_of_credentials [ none ↦ 0 | some n ↦ 1 ])
        ∷ int (pos 1)
        ∷ map_start 2
        ∷ text (codes "id")
        ∷ bytes (take r.credential_id_length r.credential_id)
        ∷ text (codes "type")
        ∷ text (codes "public-key")
        ∷ int (pos 2)
        ∷ bytes auth_data
        ∷ int (pos 3)
        ∷ bytes signature
        ∷ user_calls r
      ++ elim number_of_credentials [ none ↦ [] | some n ↦ int (pos 5) ∷ int (pos n) ∷ [] ])
