-- ===== src/WebAuthn/UserVerified.antt =====
-- When the makeCredential of src/webauthn.c takes a user as verified.
use meow_key.Prelude.{
  ℕ, Bool, true, false, ◌&&◌, List, Option, none, some, ◌≡◌, refl, sym, ap, ◌∙◌, subst, length,
}
use meow_key.ClientPin.Crypto.{Primitives}
use meow_key.ClientPin.State.{State}
use meow_key.ClientPin.Handlers.{verify_auth}
use meow_key.ClientPin.Token.{Granted, verify_auth-Granted}
use meow_key.Store.Slots.{Store}
use meow_key.WebAuthn.Entries.{has}
use meow_key.WebAuthn.MakeRequest.{MakeRequest}
use meow_key.WebAuthn.Accepted.{Approved, parse-Approved}
use meow_key.WebAuthn.Verified.{check_verification, parse_make_credential_request}

-- A request whose client data's hash the authentication parameter vouches for.
pub record Vouched (p : Primitives) (now_ms : ℕ) (r : MakeRequest) (st : State) : Type 0 where
  pub hash : List ℕ
  pub seen : r.client_data_hash ≡ some hash
  pub param : List ℕ
  pub carried : r.pin_uv_auth_param ≡ some param
  pub granted : Granted p now_ms hash r.pin_uv_auth_protocol param st

pub check-some :
    (p : Primitives) (now_ms : ℕ) (required : Bool) (hash : List ℕ) (protocol : ℕ)
    (o : Option (List ℕ)) (st : State)
    → has o ≡ true
    → (check_verification p now_ms required hash protocol o st).0 ≡ 0
    → (param : List ℕ) × (o ≡ some param)
      × ((verify_auth p now_ms hash protocol (some param) st).0 ≡ 0)
unfolding check_verification
check-some p now_ms required hash protocol none st h e = absurd cc
check-some p now_ms required hash protocol (some param) st h e = (param, refl, e)

pub and-right : (a b : Bool) → (a && b) ≡ true → b ≡ true
and-right true b e = e
and-right false b e = absurd cc

-- The library's HMAC-SHA-256 gives 32 bytes.
module _ (p : Primitives)
    (length-hmac : (key message code : List ℕ)
      → p.hmac key message ≡ some code
      → length code ≡ 32) where
  Approved-Vouched :
      (now_ms : ℕ) (s : MakeRequest) (st : State) (r : MakeRequest)
      → Approved p now_ms s st r
      → r.user_verified ≡ true
      → Vouched p now_ms r st
  Approved-Vouched now_ms s st r a verified =
      let marked = a.passed.marked in
      let has_param =
        and-right st.pin.configured (has s.pin_uv_auth_param)
          (sym (ap (λ (x : MakeRequest). x.user_verified) marked) ∙ verified) in
      let (param, carried, ok) =
        check-some p now_ms s.require_user_verification a.hash s.pin_uv_auth_protocol
          s.pin_uv_auth_param st has_param a.passed.checked in
      subst (λ (x : MakeRequest). Vouched p now_ms x st) (sym marked)
        (record {
          hash = a.hash;
          seen = a.seen;
          param = param;
          carried = carried;
          granted =
              (verify_auth-Granted p length-hmac now_ms a.hash s.pin_uv_auth_protocol param st).0
                ok;
        })

  -- With an HMAC that gives 32 bytes, a makeCredential request that is let through with its user taken
  -- as verified carries an authentication parameter that a token of the PIN, issued at most 30000 ms
  -- before, gives for the request's client data.
  pub parse_make_credential_request-Vouched :
      (fuel now_ms : ℕ) (store : Store) (request : List ℕ) (request_length : ℕ) (st : State)
      (r : MakeRequest) (st' : State)
      → parse_make_credential_request p fuel now_ms store request request_length st
        ≡ some (0, r, st')
      → r.user_verified ≡ true
      → Vouched p now_ms r st
  parse_make_credential_request-Vouched fuel now_ms store request request_length st r st' e
        verified =
      let (s, sound, approved) =
        parse-Approved p fuel now_ms store request request_length st r st' e in
      Approved-Vouched now_ms s st r approved verified
