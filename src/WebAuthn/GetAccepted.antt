-- ===== src/WebAuthn/GetAccepted.antt =====
-- The requests of getAssertion that the parser of src/webauthn.c lets through.
use meow_key.Prelude.{ℕ, true, false, ◌&&◌, ◌||◌, not, List, Option, none, some}
use meow_key.Prelude.{◌≡◌, refl, sym, ap, ◌∙◌, subst, arith, length}
use meow_key.Cbor.Reader.{Result, ok, failed, exhausted, reader_init}
use meow_key.ClientPin.Crypto.{Primitives}
use meow_key.ClientPin.State.{State}
use meow_key.ClientPin.Token.{Granted, verify_auth-Granted}
use meow_key.WebAuthn.Entries.{has}
use meow_key.WebAuthn.GetRequest.{GetRequest, no_get_request, get_entries}
use meow_key.WebAuthn.Ensures.{Post, Ensures}
use meow_key.WebAuthn.GetBounds.{Within, Fits, get_entries-Ensures}
use meow_key.WebAuthn.Outcome.{if-outcome, not-true}
use meow_key.WebAuthn.Accepted.{checked-outcome}
use meow_key.WebAuthn.UserVerified.{check-some, and-right}
use meow_key.WebAuthn.Verified.{
  Checked, check_verification, get_verified, get_checked, parse_get_assertion_request,
}

-- The request has an rp id and a client data's hash; what it copies fits the buffers; and all of
-- hmac-secret's parts are there if it asks for it.
pub record Complete (r : GetRequest) : Type 0 where
  pub some_rp : has r.rp_id ≡ true
  pub some_hash : has r.client_data_hash ≡ true
  pub rp : Within 63 r.rp_id
  pub allowed : Within 32 r.allow_credential_id
  pub salt_enc : Within 64 r.hmac_secret_salt_enc
  pub salt_auth : Within 32 r.hmac_secret_salt_auth
  pub parts :
      (r.hmac_secret_requested
        && (not (has r.hmac_secret_key_agreement)
            || (not (has r.hmac_secret_salt_enc) || not (has r.hmac_secret_salt_auth))))
      ≡ false

-- What the checks after the loop have seen, for the request that they leave.
record Passed (p : Primitives) (now_ms : ℕ) (r : GetRequest) (st : State) (r' : GetRequest)
    : Type 0 where
  hash : List ℕ
  seen : r.client_data_hash ≡ some hash
  some_rp : has r.rp_id ≡ true
  marked : r' ≡ record r { user_verified = st.pin.configured && has r.pin_uv_auth_param }
  parts :
      (r.hmac_secret_requested
        && (not (has r.hmac_secret_key_agreement)
            || (not (has r.hmac_secret_salt_enc) || not (has r.hmac_secret_salt_auth))))
      ≡ false
  checked :
      (check_verification p now_ms r.require_user_verification hash r.pin_uv_auth_protocol
        r.pin_uv_auth_param st).0
      ≡ 0

get_checked-Passed :
    (p : Primitives) (now_ms : ℕ) (o : Option (List ℕ)) (r : GetRequest) (st : State)
    (r' : GetRequest) (st' : State)
    → r.client_data_hash ≡ o
    → get_checked p now_ms o r st ≡ (0, r', st')
    → Passed p now_ms r st r'
unfolding get_checked get_verified
get_checked-Passed p now_ms none r st r' st' q e = absurd (ground (arith, e))
get_checked-Passed p now_ms (some hash) r st r' st' q e =
    let check =
      check_verification p now_ms r.require_user_verification hash r.pin_uv_auth_protocol
        r.pin_uv_auth_param st in
    let (some_rp, e1) =
      if-outcome (not (has r.rp_id)) (0x14, r, st) _ (0, r', st') e (λ x. ground (arith, x)) in
    let (configured, e2) =
      if-outcome (r.require_user_verification && not st.pin.configured) (0x35, r, st) _ (0, r', st')
        e1 (λ x. ground (arith, x)) in
    let (parts, e3) =
      if-outcome
        (r.hmac_secret_requested
          && (not (has r.hmac_secret_key_agreement)
              || (not (has r.hmac_secret_salt_enc) || not (has r.hmac_secret_salt_auth))))
        (0x14, r, st) _ (0, r', st') e2 (λ x. ground (arith, x)) in
    let (accepted, e4) = checked-outcome check.0 r check.1 _ r' st' e3 in
    record {
      hash = hash;
      seen = q;
      some_rp = not-true _ some_rp;
      marked = sym (ap (λ (x : Checked GetRequest). x.1) e4);
      parts = parts;
      checked = accepted;
    }

parse-Passed :
    (p : Primitives) (fuel now_ms : ℕ) (request : List ℕ) (request_length : ℕ) (st : State)
    (r : GetRequest) (st' : State)
    → parse_get_assertion_request p fuel now_ms request request_length st ≡ some (0, r, st')
    → (s : GetRequest) × Fits s × Passed p now_ms s st r
unfolding parse_get_assertion_request Ensures
parse-Passed p fuel now_ms request request_length st r st' e =
    go (get_entries fuel (reader_init request request_length))
      (get_entries-Ensures fuel (reader_init request request_length)) e
  where
    go :
        (x : Result GetRequest)
        → Post Fits x
        → elim x as (λ y. Option (Checked GetRequest)) [
          | ok s reader ↦ some (get_checked p now_ms s.client_data_hash s st)
          | failed ↦ some (0x12, no_get_request, st)
          | exhausted ↦ none
        ]
          ≡ some (0, r, st')
        → (s : GetRequest) × Fits s × Passed p now_ms s st r
    go (ok s reader) h q =
        (s, h, get_checked-Passed p now_ms s.client_data_hash s st r st' refl (cc))
    go failed h q = absurd (ground (arith, q))
    go exhausted h q = absurd cc

-- A getAssertion request that the parser lets through has an rp id, of at most 63 bytes, and a client
-- data's hash; a credential id from its allow list and the salts of hmac-secret, where they are there,
-- have at most 32, 64 and 32 bytes; and if it asks for hmac-secret, the key, the salts and their
-- authentication are there.
pub parse_get_assertion_request-Complete :
    (p : Primitives) (fuel now_ms : ℕ) (request : List ℕ) (request_length : ℕ) (st : State)
    (r : GetRequest) (st' : State)
    → parse_get_assertion_request p fuel now_ms request request_length st ≡ some (0, r, st')
    → Complete r
parse_get_assertion_request-Complete p fuel now_ms request request_length st r st' e =
    let (s, (rp, allowed, enc, auth, fresh), a) =
      parse-Passed p fuel now_ms request request_length st r st' e in
    subst Complete (sym a.marked) (record {
      some_rp = a.some_rp;
      some_hash = ap (λ (o : Option (List ℕ)). has o) a.seen;
      rp = rp;
      allowed = allowed;
      salt_enc = enc;
      salt_auth = auth;
      parts = a.parts;
    })

-- A request whose client data's hash the authentication parameter vouches for.
pub record Vouched (p : Primitives) (now_ms : ℕ) (r : GetRequest) (st : State) : Type 0 where
  pub hash : List ℕ
  pub seen : r.client_data_hash ≡ some hash
  pub param : List ℕ
  pub carried : r.pin_uv_auth_param ≡ some param
  pub granted : Granted p now_ms hash r.pin_uv_auth_protocol param st

-- The library's HMAC-SHA-256 gives 32 bytes.
module _ (p : Primitives)
    (length-hmac : (key message code : List ℕ)
      → p.hmac key message ≡ some code
      → length code ≡ 32) where
  -- With an HMAC that gives 32 bytes, a getAssertion request that is let through with its user taken as
  -- verified carries an authentication parameter that a token of the PIN, issued at most 30000 ms
  -- before, gives for the request's client data.
  pub parse_get_assertion_request-Vouched :
      (fuel now_ms : ℕ) (request : List ℕ) (request_length : ℕ) (st : State) (r : GetRequest)
      (st' : State)
      → parse_get_assertion_request p fuel now_ms request request_length st ≡ some (0, r, st')
      → r.user_verified ≡ true
      → Vouched p now_ms r st
  parse_get_assertion_request-Vouched fuel now_ms request request_length st r st' e verified =
      let (s, fits, a) = parse-Passed p fuel now_ms request request_length st r st' e in
      let has_param =
        and-right st.pin.configured (has s.pin_uv_auth_param)
          (sym (ap (λ (x : GetRequest). x.user_verified) a.marked) ∙ verified) in
      let (param, carried, accepted) =
        check-some p now_ms s.require_user_verification a.hash s.pin_uv_auth_protocol
          s.pin_uv_auth_param st has_param a.checked in
      subst (λ (x : GetRequest). Vouched p now_ms x st) (sym a.marked)
        (record {
          hash = a.hash;
          seen = a.seen;
          param = param;
          carried = carried;
          granted =
              (verify_auth-Granted p length-hmac now_ms a.hash s.pin_uv_auth_protocol param st).0
                accepted;
        })
