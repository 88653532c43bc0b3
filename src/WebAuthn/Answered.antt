-- ===== src/WebAuthn/Answered.antt =====
-- What stands behind an assertion that src/webauthn.c answers with.
use meow_key.Prelude.{ℕ, ◌+◌, Bool, true, not, List, ◌∷◌, ◌++◌, Option, none, some}
use meow_key.Prelude.{length, take, ltb, add32, be32, ◌≡◌, sym, ap, ap₂, ◌∙◌, arith}
use meow_key.ClientPin.Crypto.{Primitives}
use meow_key.ClientPin.Responses.{Reply, failure}
use meow_key.Store.Slot.{CredentialRecord}
use meow_key.Store.Slots.{Store, store_get_credential_by_slot, store_update_sign_count}
use meow_key.WebAuthn.GetRequest.{GetRequest}
use meow_key.WebAuthn.AuthData.{flags_of, build_assertion_auth_data, build_get_assertion_response}
use meow_key.WebAuthn.Outcome.{some-outcome, if-outcome, status-outcome, not-true}
use meow_key.WebAuthn.Assertion.{
  or_empty, build_hmac_secret_assertion_extensions, sign_assertion, signed_assertion,
  counted_assertion, respond_with_assertion,
}

module _ (p : Primitives) (key_agreement : Option (List ℕ × List ℕ))
    (sign : List ℕ → List ℕ → Option (List ℕ)) where
  -- A signature of the authenticator data and the client data's hash with the record's private key.
  pub record Signed (r : CredentialRecord) (auth_data client_data_hash signature : List ℕ)
      : Type 0 where
    pub message_hash : List ℕ
    pub hashed : p.sha256 (auth_data ++ client_data_hash) ≡ some message_hash
    pub signed : sign (take r.private_key_length r.private_key) message_hash ≡ some signature

  sign_assertion-Signed :
      (r : CredentialRecord) (auth_data client_data_hash signature : List ℕ)
      → sign_assertion p key_agreement sign r auth_data client_data_hash ≡ (0, signature)
      → Signed r auth_data client_data_hash signature
  unfolding sign_assertion
  sign_assertion-Signed r auth_data client_data_hash signature e =
      let (short, e1) =
        if-outcome (ltb 192 (length auth_data + 32)) (failure 0x12) _ (0, signature) e
          (λ q. ground (arith, q)) in
      let (hash, h, e2) =
        some-outcome (p.sha256 (auth_data ++ client_data_hash)) (failure 0x12) _ (0, signature) e1
          (λ q. ground (arith, q)) in
      let (s, k, e3) =
        some-outcome (sign (take r.private_key_length r.private_key) hash) (failure 0x22) _
          (0, signature) e2 (λ q. ground (arith, q)) in
      record { message_hash = hash; hashed = h; signed = k ∙ ap some (ap (λ (x : Reply). x.1) e3) }

  -- The record with its count one higher, as `uint32_t`.
  abbrev pub counted : CredentialRecord → CredentialRecord
  counted r = record r { sign_count = add32 r.sign_count 1 }

  -- The data that is signed for a record whose count has been raised.
  abbrev pub assertion_data : GetRequest → CredentialRecord → List ℕ → List ℕ → List ℕ
  assertion_data request r rp_id_hash extensions =
      rp_id_hash ++ flags_of 0x01 request.user_verified extensions ∷ be32 r.sign_count ++ extensions

  -- An answer from the credential of a slot: its signature, the count that is stored, and the response.
  pub record Answered (appends : Bool) (request : GetRequest) (slot_index : ℕ) (number : Option ℕ)
      (capacity : ℕ) (st : Store) (out : List ℕ) (st' : Store) : Type 0 where
    pub content : CredentialRecord
    pub held : store_get_credential_by_slot slot_index st ≡ some content
    pub extensions : List ℕ
    pub extended :
        build_hmac_secret_assertion_extensions p key_agreement sign (counted content) request
        ≡ (0, extensions)
    pub rp_id_hash : List ℕ
    pub hashed : p.sha256 (take content.rp_id_length content.rp_id) ≡ some rp_id_hash
    pub signature : List ℕ
    pub is_signed :
        Signed content
          (assertion_data request (counted content) rp_id_hash extensions)
          (or_empty request.client_data_hash)
          signature
    pub stored :
        store_update_sign_count appends slot_index (add32 content.sign_count 1) st ≡ (true, st')
    pub built :
        build_get_assertion_response
          (counted content)
          (assertion_data request (counted content) rp_id_hash extensions)
          signature
          number
          capacity
        ≡ (0, out)

  -- The end of an answer: the signature, the count that is stored, and the response.
  record Ended (appends : Bool) (r : CredentialRecord) (auth_data client_data_hash : List ℕ)
      (slot_index : ℕ) (number : Option ℕ) (capacity : ℕ) (st : Store) (out : List ℕ) (st' : Store)
      : Type 0 where
    signature : List ℕ
    is_signed : Signed r auth_data client_data_hash signature
    stored : store_update_sign_count appends slot_index r.sign_count st ≡ (true, st')
    built : build_get_assertion_response r auth_data signature number capacity ≡ (0, out)

  signed_assertion-Ended :
      (appends : Bool) (r : CredentialRecord) (auth_data client_data_hash : List ℕ) (slot_index : ℕ)
      (number : Option ℕ) (capacity : ℕ) (st : Store) (out : List ℕ) (st' : Store)
      → signed_assertion p key_agreement sign appends r auth_data client_data_hash slot_index number
          capacity st
        ≡ ((0, out), st')
      → Ended appends r auth_data client_data_hash slot_index number capacity st out st'
  unfolding signed_assertion
  signed_assertion-Ended appends r auth_data client_data_hash slot_index number capacity st out st'
        e =
      let status = (sign_assertion p key_agreement sign r auth_data client_data_hash).0 in
      let signature = (sign_assertion p key_agreement sign r auth_data client_data_hash).1 in
      let update = store_update_sign_count appends slot_index r.sign_count st in
      let (ok, e1) = status-outcome status st _ out st' e in
      let (done, e2) =
        if-outcome (not update.0) (failure 0x22, update.1) _ ((0, out), st') e1
          (λ q. ground (arith, q)) in
      record {
        signature = signature;
        is_signed =
            sign_assertion-Signed r auth_data client_data_hash signature
              (ap (λ (n : ℕ). (n, signature)) ok);
        stored =
            ap₂ (λ (b : Bool) (x : Store). (b, x)) (not-true update.0 done)
              (ap (λ (x : Reply × Store). x.1) e2);
        built = ap (λ (x : Reply × Store). x.0) e2;
      }

  counted_assertion-Ended :
      (appends : Bool) (request : GetRequest) (r : CredentialRecord) (slot_index : ℕ)
      (number : Option ℕ) (capacity : ℕ) (st : Store) (out : List ℕ) (st' : Store)
      → counted_assertion p key_agreement sign appends request r slot_index number capacity st
        ≡ ((0, out), st')
      → (extensions : List ℕ) × (build_hmac_secret_assertion_extensions p key_agreement sign r
            request
          ≡ (0, extensions))
        × (rp_id_hash : List ℕ) × (p.sha256 (take r.rp_id_length r.rp_id) ≡ some rp_id_hash)
        × Ended appends r
            (assertion_data request r rp_id_hash extensions)
            (or_empty request.client_data_hash)
            slot_index
            number
            capacity
            st
            out
            st'
  unfolding counted_assertion build_assertion_auth_data
  counted_assertion-Ended appends request r slot_index number capacity st out st' e =
      let status = (build_hmac_secret_assertion_extensions p key_agreement sign r request).0 in
      let extensions = (build_hmac_secret_assertion_extensions p key_agreement sign r request).1 in
      let hash_of = p.sha256 (take r.rp_id_length r.rp_id) in
      let data_of : List ℕ → List ℕ = λ h. assertion_data request r h extensions in
      let (ok, e1) = status-outcome status st _ out st' e in
      let (auth_data, made, e2) =
        some-outcome
          (build_assertion_auth_data p r.rp_id r.rp_id_length r.sign_count extensions
            request.user_verified 160)
          (failure 0x12, st) _ ((0, out), st') e1 (λ q. ground (arith, q)) in
      let (roomy, e3) =
        if-outcome (ltb 160 (37 + length extensions)) none _ (some auth_data) made
          (λ q. absurd cc) in
      let (rp_id_hash, hashed, e4) =
        some-outcome hash_of none (λ h. some (data_of h)) (some auth_data) e3 (λ q. absurd cc) in
      let same : auth_data ≡ data_of rp_id_hash = cc in
      (
        extensions,
        ap (λ (n : ℕ). (n, extensions)) ok,
        rp_id_hash,
        hashed,
        signed_assertion-Ended appends r (data_of rp_id_hash) (or_empty request.client_data_hash)
            slot_index number capacity st out st'
            (ap
                (λ (d : List ℕ).
                  signed_assertion p key_agreement sign appends r d
                    (or_empty request.client_data_hash) slot_index number capacity st)
                (sym same)
              ∙ e2),
      )

  -- A getAssertion that answers from a slot has read a credential there, signed with its private key
  -- the hash of its rp id, the flags, its count plus one and the extensions, followed by the client
  -- data's hash, has had that count stored in the slot, and answers with the response for all this.
  pub respond_with_assertion-Answered :
      (appends : Bool) (request : GetRequest) (slot_index : ℕ) (number : Option ℕ) (capacity : ℕ)
      (st : Store) (out : List ℕ) (st' : Store)
      → respond_with_assertion p key_agreement sign appends request slot_index number capacity st
        ≡ ((0, out), st')
      → Answered appends request slot_index number capacity st out st'
  unfolding respond_with_assertion
  respond_with_assertion-Answered appends request slot_index number capacity st out st' e =
      let (r, held, e1) =
        some-outcome (store_get_credential_by_slot slot_index st) (failure 0x22, st) _
          ((0, out), st') e (λ q. ground (arith, q)) in
      let (extensions, extended, rp_id_hash, hashed, ended) =
        counted_assertion-Ended appends request (counted r) slot_index number capacity st out st'
          e1 in
      record {
        content = r;
        held = held;
        extensions = extensions;
        extended = extended;
        rp_id_hash = rp_id_hash;
        hashed = hashed;
        signature = ended.signature;
        is_signed = record {
          message_hash = ended.is_signed.message_hash;
          hashed = ended.is_signed.hashed;
          signed = ended.is_signed.signed;
        };
        stored = ended.stored;
        built = ended.built;
      }
