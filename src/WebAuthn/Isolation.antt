-- ===== src/WebAuthn/Isolation.antt =====
-- Whose credentials a getAssertion of src/webauthn.c answers from.
use meow_key.Prelude.{◌⊎◌, inl, inr, ℕ, zero, suc, true, not, List, [], ◌∷◌, Option, none, some}
use meow_key.Prelude.{
  length, ltb, ◌==◌, if◌then◌else◌, ◌≡◌, refl, sym, ap, ◌∙◌, subst, arith, inl, inr,
}
use meow_key.Prelude.{Bool-cases, All}
use meow_key.ClientPin.Crypto.{Primitives}
use meow_key.ClientPin.Responses.{Reply, failure}
use meow_key.ClientPin.State.{State}
use meow_key.Store.Slot.{CredentialRecord}
use meow_key.Store.Slots.{Store, store_get_credential_by_slot, store_find_by_credential_id}
use meow_key.Store.Search.{store_find_by_credential_id-found}
use meow_key.UserPresence.Wait.Taps.{Waited, IsTouched, Waited-IsTouched}
use meow_key.WebAuthn.Confirmation.{Reused, consume-Reused, consume_recent_assertion_up_if_matching}
use meow_key.WebAuthn.Entries.{Bytes}
use meow_key.WebAuthn.GetRequest.{GetRequest}
use meow_key.WebAuthn.Verified.{parse_get_assertion_request}
use meow_key.WebAuthn.Assertion.{or_zero}
use meow_key.WebAuthn.Matching.{
  is_of_rp, collect_matching_slots, Matches, collect_matching_slots-Matches,
}
use meow_key.WebAuthn.Confirmed.{Confirmed, confirm-Confirmed}
use meow_key.WebAuthn.Outcome.{some-outcome, if-outcome, status-outcome, not-true}
use meow_key.WebAuthn.Session.{Session, Call, no_pending}
use meow_key.WebAuthn.Confirmation.{}
use meow_key.WebAuthn.Assertions.{
  queued, assert_allowed, queue_if_ok, assert_matching, assert_request, keyed_request,
  get_assertion,
}

module _ (p : Primitives) (sign : List ℕ → List ℕ → Option (List ℕ))
    (image : GetRequest → List ℕ) where
  -- An answer to a request, from a credential of the request's rp.
  pub record Authorized (c : Call) (key : List ℕ) (request : GetRequest) (capacity : ℕ)
      (s : Session) (out : List ℕ) (store' : Store) : Type 0 where
    pub slot_index : ℕ
    pub number : Option ℕ
    pub confirmed : Confirmed p sign image c key request slot_index number capacity s out store'
    pub of_rp : is_of_rp (or_zero request.rp_id) confirmed.answered.content ≡ true

  -- Two reads of a slot give one record.
  same_content :
      (rp_id : Bytes) (i : ℕ) (st : Store) (r r' : CredentialRecord)
      → store_get_credential_by_slot i st ≡ some r
      → store_get_credential_by_slot i st ≡ some r'
      → is_of_rp rp_id r ≡ true
      → is_of_rp rp_id r' ≡ true
  same_content rp_id i st r r' e e' h =
      let same : r ≡ r' = cc in subst (λ (x : CredentialRecord). is_of_rp rp_id x ≡ true) same h

  allowed-Authorized :
      (c : Call) (key : List ℕ) (request : GetRequest) (id : Bytes) (capacity : ℕ) (s : Session)
      (out : List ℕ) (s' : Session)
      → assert_allowed p sign image c key request id capacity s ≡ ((0, out), s')
      → Authorized c key request capacity s out s'.store
  unfolding assert_allowed
  allowed-Authorized c key request id capacity s out s' e =
      let ((i, r), found, e1) =
        some-outcome (store_find_by_credential_id id.content id.size s.store) (failure 0x22, s) _
          ((0, out), s') e (λ q. ground (arith, q)) in
      let (of_rp, e2) =
        if-outcome (not (is_of_rp (or_zero request.rp_id) r)) (failure 0x22, s) _ ((0, out), s') e1
          (λ q. ground (arith, q)) in
      let confirmed = confirm-Confirmed p sign image c key request i none capacity s out s' e2 in
      let held = (store_find_by_credential_id-found id.content id.size s.store i r found).0 in
      record {
        slot_index = i;
        number = none;
        confirmed = confirmed;
        of_rp =
            same_content (or_zero request.rp_id) i s.store r confirmed.answered.content held
              confirmed.answered.held (not-true _ of_rp);
      }

  queued-keeps :
      (c : Call) (request : GetRequest) (slots : List ℕ) (s : Session)
      → (queued p sign image c request slots s).store ≡ s.store
  unfolding queued
  queued-keeps c request slots s = elim (Bool-cases (ltb 1 (length slots))) [
    | inl e ↦ rw (e) refl
    | inr e ↦ rw (e) refl
  ]

  queued-store :
      (c : Call) (request : GetRequest) (slots : List ℕ) (x : Reply × Session) (out : List ℕ)
      (s' : Session)
      → queue_if_ok p sign image c request slots x ≡ ((0, out), s')
      → (store' : Session) × (x ≡ ((0, out), store')) × (store'.store ≡ s'.store)
  unfolding queue_if_ok
  queued-store c request slots ((zero, answer), s) out s' e = (
    s,
    ap (λ (x : Reply × Session). (x.0, s)) e,
    sym (queued-keeps c request slots s) ∙ ap (λ (x : Reply × Session). x.1.store) e,
  )
  queued-store c request slots ((suc n, answer), s) out s' e =
      absurd (ground (arith, ap (λ (x : Reply × Session). x.0.0) e))

  matching-Authorized :
      (c : Call) (key : List ℕ) (request : GetRequest) (slots : List ℕ) (capacity : ℕ) (s : Session)
      (out : List ℕ) (s' : Session)
      → All (Matches (or_zero request.rp_id) s.store) slots
      → assert_matching p sign image c key request slots capacity s ≡ ((0, out), s')
      → Authorized c key request capacity s out s'.store
  unfolding assert_matching
  matching-Authorized c key request [] capacity s out s' h e = absurd (ground (arith, e))
  matching-Authorized c key request (i ∷ rest) capacity s out s' (m, more) e =
      let number : Option ℕ =
        if ltb 1 (length (i ∷ rest)) then some (length (i ∷ rest)) else none in
      let (mid, e1, same) = queued-store c request (i ∷ rest) _ out s' e in
      let confirmed = confirm-Confirmed p sign image c key request i number capacity s out mid e1 in
      let authorized : Authorized c key request capacity s out mid.store = record {
        slot_index = i;
        number = number;
        confirmed = confirmed;
        of_rp =
            same_content (or_zero request.rp_id) i s.store m.content confirmed.answered.content
              m.held confirmed.answered.held m.of_rp;
      } in
      subst (λ (x : Store). Authorized c key request capacity s out x) same authorized

  -- What `get_assertion` finds in a request that it answers: the request as parsed, the key that stands
  -- for it, and the credential; and that the user has pressed the button in the wait, where one is set
  -- up, or has confirmed the same request just before.
  pub record Served (fuel : ℕ) (c : Call) (w : Waited c.wait_status) (request : List ℕ)
      (request_length capacity : ℕ) (s : Session) (out : List ℕ) (s' : Session) : Type 0 where
    pub parsed : GetRequest
    pub pin : State
    pub is_parsed :
        parse_get_assertion_request p fuel c.verified_ms request request_length s.pin
        ≡ some (0, parsed, pin)
    pub key : List ℕ
    pub keyed : p.sha256 (image parsed) ≡ some key
    pub authorized :
        Authorized c key parsed capacity (record s { pin = pin; pending = no_pending }) out s'.store
    pub confirmed : IsTouched w ⊎ Reused c.asked_ms key s.recent

  touched-or-Reused :
      (c : Call) (w : Waited c.wait_status) (key : List ℕ) (s : Session)
      → (c.wait_status ≡ 0)
        ⊎ ((consume_recent_assertion_up_if_matching c.asked_ms key s.recent).0 ≡ true)
      → IsTouched w ⊎ Reused c.asked_ms key s.recent
  touched-or-Reused c w key s (inl e) = inl (Waited-IsTouched c.wait_status w e)
  touched-or-Reused c w key s (inr e) = inr (consume-Reused c.asked_ms key s.recent e)

  assert_request-Authorized :
      (c : Call) (key : List ℕ) (request : GetRequest) (capacity : ℕ) (s : Session) (out : List ℕ)
      (s' : Session)
      → assert_request p sign image c key request capacity s ≡ ((0, out), s')
      → Authorized c key request capacity s out s'.store
  unfolding assert_request
  assert_request-Authorized c key request capacity s out s' e = go request.allow_credential_id e
    where
      go :
          (o : Option Bytes)
          → elim o as (λ x. Reply × Session) [
            | some id ↦ assert_allowed p sign image c key request id capacity s
            | none ↦
                assert_matching p sign image c key request
                  (collect_matching_slots (or_zero request.rp_id) 128 s.store)
                  capacity
                  s
          ]
            ≡ ((0, out), s')
          → Authorized c key request capacity s out s'.store
      go (some id) q = allowed-Authorized c key request id capacity s out s' q
      go none q =
          matching-Authorized c key request _ capacity s out s'
            (collect_matching_slots-Matches (or_zero request.rp_id) 128 s.store) q

  served :
      (fuel : ℕ) (c : Call) (w : Waited c.wait_status) (request : List ℕ)
      (request_length capacity : ℕ) (s : Session) (out : List ℕ) (s' : Session)
      (parsed : GetRequest) (pin : State)
      → parse_get_assertion_request p fuel c.verified_ms request request_length s.pin
        ≡ some (0, parsed, pin)
      → (key : List ℕ) → p.sha256 (image parsed) ≡ some key
      → Authorized c key parsed capacity (record s { pin = pin; pending = no_pending }) out s'.store
      → Served fuel c w request request_length capacity s out s'
  served fuel c w request request_length capacity s out s' parsed pin is_parsed key keyed a =
      record {
        parsed = parsed;
        pin = pin;
        is_parsed = is_parsed;
        key = key;
        keyed = keyed;
        authorized = a;
        confirmed = touched-or-Reused c w key s a.confirmed.confirmed;
      }

  -- A getAssertion that succeeds answers from one credential of the store: its rp id is the request's,
  -- also where the request has an allow list; the wait that gave its status either has no source set up
  -- or has seen as many presses of the button as its configuration asks for, at least one, or else the
  -- confirmation that is kept is reused, which is of a request with the same key and at most 1200 ms
  -- old by the clock of 32 bits; and what is signed, counted and answered is as for one assertion.
  pub get_assertion-Served :
      (fuel : ℕ) (c : Call) (w : Waited c.wait_status) (request : List ℕ)
      (request_length capacity : ℕ) (s : Session) (out : List ℕ) (s' : Session)
      → get_assertion p sign image fuel c request request_length capacity s ≡ some ((0, out), s')
      → Served fuel c w request request_length capacity s out s'
  unfolding get_assertion keyed_request
  get_assertion-Served fuel c w request request_length capacity s out s' e =
      let ((status, parsed, pin), is_parsed, e1) =
        some-outcome (parse_get_assertion_request p fuel c.verified_ms request request_length s.pin)
          none _ (some ((0, out), s')) e (λ q. absurd cc) in
      let s1 : Session = record s { pin = pin; pending = no_pending } in
      let next : Reply × Session = keyed_request p sign image c parsed capacity s1 in
      let e2 : (if not (status == 0)
            then (let r : Reply × Session = (failure status, s1) in r)
            else next)
          ≡ ((0, out), s') =
        cc in
      let (ok, e3) = status-outcome status s1 next out s' e2 in
      let (key, keyed, e4) =
        some-outcome (p.sha256 (image parsed)) (failure 0x12, s1) _ ((0, out), s') e3
          (λ q. ground (arith, q)) in
      served fuel c w request request_length capacity s out s' parsed pin
        (is_parsed ∙ ap (λ (n : ℕ). some (n, parsed, pin)) ok) key keyed
        (assert_request-Authorized c key parsed capacity s1 out s' e4)
