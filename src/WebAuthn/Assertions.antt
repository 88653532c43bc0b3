-- ===== src/WebAuthn/Assertions.antt =====
-- The handlers of getAssertion and getNextAssertion in src/webauthn.c.
use meow_key.Prelude.{ℕ, Bool, true, ◌&&◌, ◌||◌, not, List, [], ◌∷◌, Option, none, some}
use meow_key.Prelude.{length, get_or, ltb, leb, ◌==◌, if◌then◌else◌, add32}
use meow_key.ClientPin.Crypto.{Primitives}
use meow_key.ClientPin.Responses.{Reply, failure}
use meow_key.Store.Slots.{store_find_by_credential_id}
use meow_key.WebAuthn.Entries.{Bytes}
use meow_key.WebAuthn.GetRequest.{GetRequest, no_get_request}
use meow_key.WebAuthn.Verified.{parse_get_assertion_request}
use meow_key.WebAuthn.Assertion.{or_zero, respond_with_assertion}
use meow_key.WebAuthn.Matching.{is_of_rp, collect_matching_slots}
use meow_key.WebAuthn.Session.{Session, Call, no_pending}
use meow_key.WebAuthn.Pending.{pending_assertion_is_current}
use meow_key.WebAuthn.Confirmation.{
  consume_recent_assertion_up_if_matching, arm_recent_assertion_up,
}

-- `sign` is as for `sign_assertion`; `image` gives the bytes of a `get_assertion_request_t`, which
-- `get_assertion_retry_match_key` hashes.
module _ (p : Primitives) (sign : List ℕ → List ℕ → Option (List ℕ))
    (image : GetRequest → List ℕ) where
  -- `respond_with_assertion` on the session.
  unfoldable pub respond_from : Call → GetRequest → ℕ → Option ℕ → ℕ → Session → Reply × Session
  respond_from c request slot_index number_of_credentials capacity s =
      let (reply, store) =
        respond_with_assertion p s.pin.key_agreement sign c.commits request slot_index
          number_of_credentials capacity s.store in
      (reply, record s { store = store })

  -- `s_pending_assertion`, filled where more than one credential matches.
  unfoldable pub queued : Call → GetRequest → List ℕ → Session → Session
  queued c request slots s =
      if ltb 1 (length slots)
      then record s {
        pending = record {
          active = true;
          request = request;
          slot_indices = slots;
          credential_count = length slots;
          next_index = 1;
          last_used_ms = c.used_ms;
        };
      }
      else s

  -- The response, and `arm_recent_assertion_up` if it succeeds after a wait of its own.
  unfoldable pub respond_and_arm :
      Call → List ℕ → Bool → GetRequest → ℕ → Option ℕ → ℕ → Session → Reply × Session
  respond_and_arm c key reused request slot_index number_of_credentials capacity s =
      let (reply, s') = respond_from c request slot_index number_of_credentials capacity s in
      if reply.0 == 0 && not reused
      then (reply, record s' { recent = arm_recent_assertion_up c.granted_ms key })
      else (reply, s')

  -- The reuse of a confirmation, or the wait for one, before the response.
  unfoldable pub confirm_then_respond :
      Call → List ℕ → GetRequest → ℕ → Option ℕ → ℕ → Session → Reply × Session
  confirm_then_respond c key request slot_index number_of_credentials capacity s =
      let (reused, recent) = consume_recent_assertion_up_if_matching c.asked_ms key s.recent in
      let s' : Session = record s { recent = recent } in
      if not reused && not (c.wait_status == 0)
      then (failure c.wait_status, s')
      else respond_and_arm c key reused request slot_index number_of_credentials capacity s'

  -- The branch with a credential from the allow list.
  unfoldable pub assert_allowed : Call → List ℕ → GetRequest → Bytes → ℕ → Session → Reply × Session
  assert_allowed c key request id capacity s =
      elim (store_find_by_credential_id id.content id.size s.store) [
        | none ↦ (failure 0x22, s)
        | some (slot_index, r) ↦
            if not (is_of_rp (or_zero request.rp_id) r)
            then (failure 0x22, s)
            else confirm_then_respond c key request slot_index none capacity s
      ]

  -- The end of the branch without one, where a response that fails clears the queue.
  unfoldable pub queue_if_ok : Call → GetRequest → List ℕ → Reply × Session → Reply × Session
  queue_if_ok c request slots (reply, s) =
      if not (reply.0 == 0) then (reply, s) else (reply, queued c request slots s)

  unfoldable pub assert_matching :
      Call → List ℕ → GetRequest → List ℕ → ℕ → Session → Reply × Session
  assert_matching c key request [] capacity s = (failure 0x2e, s)
  assert_matching c key request (slot ∷ slots) capacity s =
      let number = if ltb 1 (length (slot ∷ slots)) then some (length (slot ∷ slots)) else none in
      queue_if_ok c request (slot ∷ slots)
        (confirm_then_respond c key request slot number capacity s)

  unfoldable pub assert_request : Call → List ℕ → GetRequest → ℕ → Session → Reply × Session
  assert_request c key request capacity s = elim request.allow_credential_id [
    | some id ↦ assert_allowed c key request id capacity s
    | none ↦
        assert_matching c key request (collect_matching_slots (or_zero request.rp_id) 128 s.store)
          capacity s
  ]

  -- With `get_assertion_retry_match_key`.
  unfoldable pub keyed_request : Call → GetRequest → ℕ → Session → Reply × Session
  keyed_request c request capacity s = elim (p.sha256 (image request)) [
    | none ↦ (failure 0x12, s)
    | some key ↦ assert_request c key request capacity s
  ]

  -- `meowkey_webauthn_get_assertion`, once the store is loaded; `none` says that the fuel of `skip`
  -- ran out.
  unfoldable pub get_assertion : ℕ → Call → List ℕ → ℕ → ℕ → Session → Option (Reply × Session)
  get_assertion fuel c request request_length capacity s =
      elim (parse_get_assertion_request p fuel c.verified_ms request request_length s.pin) [
        | none ↦ none
        | some (status, parsed, pin) ↦ some (
            let s' : Session = record s { pin = pin; pending = no_pending } in
            if not (status == 0) then (failure status, s') else keyed_request c parsed capacity s')
      ]

  -- The end of `meowkey_webauthn_get_next_assertion`.
  unfoldable pub advanced : Call → Reply × Session → Reply × Session
  advanced c (reply, s) =
      let next = add32 s.pending.next_index 1 in
      if not (reply.0 == 0) || leb s.pending.credential_count next
      then (reply, record s { pending = no_pending })
      else (
        reply,
        record s { pending = record (s.pending) { next_index = next; last_used_ms = c.used_ms } },
      )

  -- `meowkey_webauthn_get_next_assertion`
  unfoldable pub next_assertion : Call → ℕ → ℕ → Session → Reply × Session
  next_assertion c request_length capacity s =
      if not (request_length == 0)
      then (failure 0x12, s)
      else (let (current, pending) =
            pending_assertion_is_current no_get_request (λ r i. (0, tt)) c.asked_ms s.pending in
          if not current || leb pending.credential_count pending.next_index
          then (failure 0x30, record s { pending = no_pending })
          else advanced c (
              respond_from c pending.request (get_or pending.slot_indices pending.next_index 0) none
                capacity (record s { pending = pending })))
