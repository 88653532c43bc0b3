-- ===== src/WebAuthn/SoundHandlers.antt =====
-- The handlers of src/webauthn.c keep the invariant of its state.
use meow_key.Prelude.{ℕ, Bool, true, false, ◌||◌, not, List, Option, none, some}
use meow_key.Prelude.{
  get_or, leb, ltb, ◌==◌, add32, sub32, if◌then◌else◌, ◌≡◌, refl, sym, ap, ◌∙◌, subst, arith,
}
use meow_key.ClientPin.Crypto.{Primitives}
use meow_key.ClientPin.Responses.{Reply, failure}
use meow_key.Store.Slot.{CredentialRecord}
use meow_key.Store.Slots.{Store, store_add_credential}
use meow_key.Store.Count.{IsCounted}
use meow_key.Store.Steps.{add, operate, IsStorableIn, operate-IsCounted}
use meow_key.WebAuthn.Entries.{Bytes}
use meow_key.WebAuthn.MakeRequest.{MakeRequest}
use meow_key.WebAuthn.GetRequest.{GetRequest, no_get_request}
use meow_key.WebAuthn.Verified.{Checked, parse_make_credential_request, parse_get_assertion_request}
use meow_key.WebAuthn.Assertion.{or_zero}
use meow_key.WebAuthn.Matching.{collect_matching_slots}
use meow_key.WebAuthn.Outcome.{some-keeps, if-keeps}
use meow_key.WebAuthn.Accepted.{Accepted, parse_make_credential_request-Accepted}
use meow_key.WebAuthn.Created.{created_record, created-IsStorable, generate-created}
use meow_key.WebAuthn.Pending.{Pending, pending_assertion_is_current, clear_pending_assertion}
use meow_key.WebAuthn.Confirmation.{clear_recent_assertion_up}
use meow_key.WebAuthn.Session.{
  Session, Call, no_pending, requested_record, generate_credential, add_and_respond,
  create_credential, confirmed_create, make_credential,
}
use meow_key.WebAuthn.Assertions.{
  assert_allowed, assert_matching, assert_request, keyed_request, get_assertion, advanced,
  next_assertion,
}
use meow_key.WebAuthn.Sound.{
  IsQueue, IsSound, Keeps, no_pending-IsQueue, respond_from-IsSound, allowed-Keeps, matching-Keeps,
  length-collect,
}

abbrev pub KeepsSome : Option (Reply × Session) → Type 0
KeepsSome none = Unit
KeepsSome (some x) = IsSound x.1

add-IsCounted :
    (commits : Bool) (c : Call) (request : MakeRequest) (private : List ℕ) (st : Store)
    → Accepted request
    → IsCounted st
    → IsCounted (store_add_credential commits (created_record c request private) st).1
unfolding operate IsStorableIn
add-IsCounted commits c request private st a h =
    operate-IsCounted (add commits (created_record c request private)) st
      (created-IsStorable c request private a) h

module _ (p : Primitives) where
  added-Keeps :
      (commits : Bool) (request : MakeRequest) (r : CredentialRecord) (public_key : List ℕ)
      (capacity : ℕ) (s : Session)
      → IsCounted (store_add_credential commits r s.store).1
      → IsQueue s.pending
      → Keeps (add_and_respond p commits request r public_key capacity s)
  unfolding add_and_respond
  added-Keeps commits request r public_key capacity s h q =
      let k : IsSound (record s { store = (store_add_credential commits r s.store).1 }) = record {
        store = h;
        queue = q;
      } in
      some-keeps Keeps (store_add_credential commits r s.store).0 _ _ (record { kept = k })
        (λ slot e. record { kept = k })

  create-Keeps :
      (c : Call) (request : MakeRequest) (capacity : ℕ) (s : Session)
      → Accepted request
      → IsSound s
      → Keeps (confirmed_create p c request capacity s)
  unfolding confirmed_create create_credential
  create-Keeps c request capacity s a h =
      let s1 : Session = record s { pending = no_pending; recent = clear_recent_assertion_up } in
      let h1 : IsSound s1 = record { store = h.store; queue = no_pending-IsQueue } in
      if-keeps Keeps (not (c.wait_status == 0)) _ _ (λ e. record { kept = h1 })
        (λ e.
          some-keeps Keeps (generate_credential c (requested_record request)) _ _
            (record { kept = h1 })
            (λ made e.
              let (private, k, same) = generate-created p c request made.0 made.1 e in
              added-Keeps c.commits request made.0 made.1 capacity s1
                (subst
                  (λ (r : CredentialRecord). IsCounted (store_add_credential c.commits r s.store).1)
                  (sym same) (add-IsCounted c.commits c request private s.store a h.store))
                no_pending-IsQueue))

  pub make_credential-KeepsSome :
      (fuel : ℕ) (c : Call) (input : List ℕ) (input_length capacity : ℕ) (s : Session)
      → IsSound s
      → KeepsSome (make_credential p fuel c input input_length capacity s)
  unfolding make_credential
  make_credential-KeepsSome fuel c input input_length capacity s h =
      go (parse_make_credential_request p fuel c.verified_ms s.store input input_length s.pin) refl
    where
      go :
          (o : Option (Checked MakeRequest))
          → parse_make_credential_request p fuel c.verified_ms s.store input input_length s.pin ≡ o
          → KeepsSome (elim o as (λ x. Option (Reply × Session)) [
            | none ↦ none
            | some (status, parsed, pin) ↦ some (
                let s' : Session = record s { pin = pin } in
                if not (status == 0)
                then (failure status, s')
                else confirmed_create p c parsed capacity s')
          ])
      go none e = tt
      go (some (status, parsed, pin)) e =
          let h' : IsSound (record s { pin = pin }) = record { store = h.store; queue = h.queue } in
          (if-keeps Keeps (not (status == 0)) _ _ (λ q. record { kept = h' })
            (λ q.
              let ok : status ≡ 0 = ground (arith, q) in
              create-Keeps c parsed capacity (record s { pin = pin })
                (parse_make_credential_request-Accepted p fuel c.verified_ms s.store input
                  input_length s.pin parsed pin (e ∙ ap (λ (n : ℕ). some (n, parsed, pin)) ok))
                h')).kept

module _ (p : Primitives) (sign : List ℕ → List ℕ → Option (List ℕ))
    (image : GetRequest → List ℕ) where
  assert-Keeps :
      (c : Call) (key : List ℕ) (request : GetRequest) (capacity : ℕ) (s : Session)
      → IsSound s
      → Keeps (assert_request p sign image c key request capacity s)
  unfolding assert_request
  assert-Keeps c key request capacity s h = go request.allow_credential_id
    where
      go :
          (o : Option Bytes)
          → Keeps (elim o as (λ x. Reply × Session) [
            | some id ↦ assert_allowed p sign image c key request id capacity s
            | none ↦
                assert_matching p sign image c key request
                  (collect_matching_slots (or_zero request.rp_id) 128 s.store)
                  capacity
                  s
          ])
      go (some id) = allowed-Keeps p sign image c key request id capacity s h
      go none =
          matching-Keeps p sign image c key request _ capacity s
            (length-collect p sign image (or_zero request.rp_id) s.store) h

  pub get_assertion-KeepsSome :
      (fuel : ℕ) (c : Call) (input : List ℕ) (input_length capacity : ℕ) (s : Session)
      → IsSound s
      → KeepsSome (get_assertion p sign image fuel c input input_length capacity s)
  unfolding get_assertion keyed_request
  get_assertion-KeepsSome fuel c input input_length capacity s h =
      go (parse_get_assertion_request p fuel c.verified_ms input input_length s.pin)
    where
      go :
          (o : Option (Checked GetRequest))
          → KeepsSome (elim o as (λ x. Option (Reply × Session)) [
            | none ↦ none
            | some (status, parsed, pin) ↦ some (
                let s' : Session = record s { pin = pin; pending = no_pending } in
                if not (status == 0)
                then (failure status, s')
                else keyed_request p sign image c parsed capacity s')
          ])
      go none = tt
      go (some (status, parsed, pin)) =
          let s1 : Session = record s { pin = pin; pending = no_pending } in
          let h' : IsSound s1 = record { store = h.store; queue = no_pending-IsQueue } in
          (if-keeps Keeps (not (status == 0)) _ _ (λ q. record { kept = h' })
            (λ q.
              some-keeps Keeps (p.sha256 (image parsed)) _ _ (record { kept = h' })
                (λ key e. assert-Keeps c key parsed capacity s1 h'))).kept

  -- The queue that is left by the look at its age.
  record Current (x : Bool × Pending GetRequest) : Type 0 where
    queue : IsQueue x.1

  pending_assertion_is_current-Current :
      (now_ms : ℕ) (q : Pending GetRequest)
      → IsQueue q
      → Current (pending_assertion_is_current no_get_request (λ r i. (0, tt)) now_ms q)
  unfolding pending_assertion_is_current clear_pending_assertion
  pending_assertion_is_current-Current now_ms q h =
      if-keeps Current (not q.active) _ _ (λ e. record { queue = h })
        (λ e.
          if-keeps Current (ltb 30000 (sub32 now_ms q.last_used_ms)) _ _
            (λ e. record { queue = no_pending-IsQueue }) (λ e. record { queue = h }))

  or-false : (a b : Bool) → (a || b) ≡ false → b ≡ false
  or-false true b e = absurd cc
  or-false false b e = e

  advanced-Keeps :
      (c : Call) (x : Reply × Session) → IsSound x.1 → Keeps (advanced p sign image c x)
  unfolding advanced
  advanced-Keeps c (reply, s) h =
      let next = add32 s.pending.next_index 1 in
      if-keeps Keeps (not (reply.0 == 0) || leb s.pending.credential_count next) _ _
        (λ e. record { kept = record { store = h.store; queue = no_pending-IsQueue } })
        (λ e.
          let before : leb s.pending.credential_count next ≡ false = or-false _ _ e in
          record {
            kept = record {
              store = h.store;
              queue = record {
                all = h.queue.all;
                few = h.queue.few;
                inside = ground (arith, before);
              };
            };
          })

  pub next_assertion-Keeps :
      (c : Call) (request_length capacity : ℕ) (s : Session)
      → IsSound s
      → Keeps (next_assertion p sign image c request_length capacity s)
  unfolding next_assertion
  next_assertion-Keeps c request_length capacity s h =
      let x = pending_assertion_is_current no_get_request (λ r i. (0, tt)) c.asked_ms s.pending in
      let k = pending_assertion_is_current-Current c.asked_ms s.pending h.queue in
      let s1 : Session = record s { pending = x.1 } in
      let h1 : IsSound s1 = record { store = h.store; queue = k.queue } in
      if-keeps Keeps (not (request_length == 0)) _ _ (λ e. record { kept = h })
        (λ e.
          if-keeps Keeps (not x.0 || leb x.1.credential_count x.1.next_index) _ _
            (λ e. record { kept = record { store = h.store; queue = no_pending-IsQueue } })
            (λ e. advanced-Keeps c _ (
              respond_from-IsSound p sign image c x.1.request
                (get_or x.1.slot_indices x.1.next_index 0) none capacity s1 h1)))
