-- ===== src/WebAuthn/Accepted.antt =====
-- The requests of makeCredential that the parser of src/webauthn.c lets through.
use meow_key.Prelude.{
  ℕ, zero, suc, ◌≤◌, ◌<◌, Bool, true, false, ◌&&◌, ◌||◌, not, List, Option, none, some,
}
use meow_key.Prelude.{if◌then◌else◌, ◌==◌, ◌≡◌, refl, sym, ap, subst, arith}
use meow_key.Cbor.Reader.{Result, ok, failed, exhausted, reader_init}
use meow_key.ClientPin.Crypto.{Primitives}
use meow_key.ClientPin.State.{State}
use meow_key.Store.Slots.{Store}
use meow_key.WebAuthn.Entries.{has}
use meow_key.WebAuthn.MakeRequest.{MakeRequest, no_make_request, make_entries}
use meow_key.WebAuthn.Ensures.{Post, Ensures}
use meow_key.WebAuthn.MakeBounds.{Sound, make_entries-Ensures}
use meow_key.WebAuthn.Outcome.{if-outcome, not-true}
use meow_key.WebAuthn.Verified.{
  Checked, check_verification, make_verified, make_checked, parse_make_credential_request,
}

-- The sizes fit the buffers, and an rp and a user have an id.
pub record Accepted (r : MakeRequest) : Type 0 where
  pub some_rp : 0 < r.rp_id.size
  pub rp : r.rp_id.size < 64
  pub some_user : 0 < r.user_id.size
  pub user : r.user_id.size ≤ 64
  pub name : r.user_name.size < 64
  pub display : r.display_name.size < 96

module _ {Request : Type 0} where
  pub checked-outcome :
      (status : ℕ) (r : Request) (st : State) (next : Checked Request) (r' : Request) (st' : State)
      → (if not (status == 0)
          then (let refused : Checked Request = (status, r, st) in refused)
          else next)
        ≡ (0, r', st')
      → (status ≡ 0) × (next ≡ (0, r', st'))
  checked-outcome zero r st next r' st' e = (refl, e)
  checked-outcome (suc n) r st next r' st' e =
      absurd (ground (arith, ap (λ (x : Checked Request). x.0) e))

or-false : (a b : Bool) → (a || b) ≡ false → (a ≡ false) × (b ≡ false)
or-false true b e = absurd cc
or-false false b e = (refl, e)

-- What the checks after the loop have seen, for the request that they leave.
pub record Passed (p : Primitives) (now_ms : ℕ) (hash : List ℕ) (r : MakeRequest) (st : State)
    (r' : MakeRequest) : Type 0 where
  pub marked : r' ≡ record r { user_verified = st.pin.configured && has r.pin_uv_auth_param }
  pub unknown : r.credential_excluded ≡ false
  pub checked :
      (check_verification p now_ms r.require_user_verification hash r.pin_uv_auth_protocol
        r.pin_uv_auth_param st).0
      ≡ 0

make_verified-Passed :
    (p : Primitives) (now_ms : ℕ) (hash : List ℕ) (r : MakeRequest) (st : State) (r' : MakeRequest)
    (st' : State)
    → make_verified p now_ms hash r st ≡ (0, r', st')
    → Passed p now_ms hash r st r'
unfolding make_verified
make_verified-Passed p now_ms hash r st r' st' e =
    let check =
      check_verification p now_ms r.require_user_verification hash r.pin_uv_auth_protocol
        r.pin_uv_auth_param st in
    let marked : MakeRequest = record r {
      user_verified = st.pin.configured && has r.pin_uv_auth_param;
    } in
    let (configured, e1) =
      if-outcome (r.require_user_verification && not st.pin.configured) (0x35, r, st) _ (0, r', st')
        e (λ q. ground (arith, q)) in
    let (accepted, e2) = checked-outcome check.0 r check.1 _ r' st' e1 in
    let (unknown, e3) =
      if-outcome r.credential_excluded (0x19, marked, check.1) _ (0, r', st') e2
        (λ q. ground (arith, q)) in
    record {
      marked = sym (ap (λ (x : Checked MakeRequest). x.1) e3);
      unknown = unknown;
      checked = accepted;
    }

pub record Approved (p : Primitives) (now_ms : ℕ) (r : MakeRequest) (st : State) (r' : MakeRequest)
    : Type 0 where
  pub hash : List ℕ
  pub seen : r.client_data_hash ≡ some hash
  pub have_rp : r.have_rp ≡ true
  pub have_user : r.have_user ≡ true
  pub es256 : r.supports_es256 ≡ true
  pub passed : Passed p now_ms hash r st r'

make_checked-Approved :
    (p : Primitives) (now_ms : ℕ) (o : Option (List ℕ)) (r : MakeRequest) (st : State)
    (r' : MakeRequest) (st' : State)
    → r.client_data_hash ≡ o
    → make_checked p now_ms o r st ≡ (0, r', st')
    → Approved p now_ms r st r'
unfolding make_checked
make_checked-Approved p now_ms none r st r' st' q e = absurd (ground (arith, e))
make_checked-Approved p now_ms (some hash) r st r' st' q e =
    let (seen, e1) =
      if-outcome (not r.have_rp || not r.have_user) (0x14, r, st) _ (0, r', st') e
        (λ x. ground (arith, x)) in
    let (es256, e2) =
      if-outcome (not r.supports_es256) (0x26, r, st) _ (0, r', st') e1 (λ x. ground (arith, x)) in
    let (rp, user) = or-false _ _ seen in
    record {
      hash = hash;
      seen = q;
      have_rp = not-true _ rp;
      have_user = not-true _ user;
      es256 = not-true _ es256;
      passed = make_verified-Passed p now_ms hash r st r' st' e2;
    }

Approved-Accepted :
    (p : Primitives) (now_ms : ℕ) (r : MakeRequest) (st : State) (r' : MakeRequest)
    → Sound r
    → Approved p now_ms r st r'
    → Accepted r'
Approved-Accepted p now_ms r st r' ((rp, user, name, display, fresh), some_rp, some_user) a =
    subst Accepted (sym a.passed.marked) (record {
      some_rp = some_rp a.have_rp;
      rp = rp;
      some_user = some_user a.have_user;
      user = user;
      name = name;
      display = display;
    })

-- What the loop has read and the checks have let through.
pub parse-Approved :
    (p : Primitives) (fuel now_ms : ℕ) (store : Store) (request : List ℕ) (request_length : ℕ)
    (st : State) (r : MakeRequest) (st' : State)
    → parse_make_credential_request p fuel now_ms store request request_length st ≡ some (0, r, st')
    → (s : MakeRequest) × Sound s × Approved p now_ms s st r
unfolding parse_make_credential_request Ensures
parse-Approved p fuel now_ms store request request_length st r st' e =
    go (make_entries fuel store (reader_init request request_length))
      (make_entries-Ensures fuel store (reader_init request request_length)) e
  where
    go :
        (x : Result MakeRequest)
        → Post Sound x
        → elim x as (λ y. Option (Checked MakeRequest)) [
          | ok s reader ↦ some (make_checked p now_ms s.client_data_hash s st)
          | failed ↦ some (0x12, no_make_request, st)
          | exhausted ↦ none
        ]
          ≡ some (0, r, st')
        → (s : MakeRequest) × Sound s × Approved p now_ms s st r
    go (ok s reader) h q =
        (s, h, make_checked-Approved p now_ms s.client_data_hash s st r st' refl (cc))
    go failed h q = absurd (ground (arith, q))
    go exhausted h q = absurd cc

-- A makeCredential request that the parser lets through fits the buffers: the rp's and the user's ids
-- are there, of at most 63 and 64 bytes, and the names have at most 63 and 95.
pub parse_make_credential_request-Accepted :
    (p : Primitives) (fuel now_ms : ℕ) (store : Store) (request : List ℕ) (request_length : ℕ)
    (st : State) (r : MakeRequest) (st' : State)
    → parse_make_credential_request p fuel now_ms store request request_length st ≡ some (0, r, st')
    → Accepted r
parse_make_credential_request-Accepted p fuel now_ms store request request_length st r st' e =
    let (s, sound, approved) =
      parse-Approved p fuel now_ms store request request_length st r st' e in
    Approved-Accepted p now_ms s st r sound approved
