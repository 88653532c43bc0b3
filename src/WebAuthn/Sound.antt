-- ===== src/WebAuthn/Sound.antt =====
-- The invariant of the state of src/webauthn.c and of the store under its handlers.
use meow_key.Prelude.{ℕ, ◌≤◌, Bool, ◌&&◌, not, List, [], ◌∷◌, Option, none}
use meow_key.Prelude.{length, length-take, ltb, ◌==◌, add32, ◌≡◌, refl, ap, arith, ltb→lt}
use meow_key.ClientPin.Crypto.{Primitives}
use meow_key.ClientPin.Responses.{Reply}
use meow_key.Store.Slot.{CredentialRecord}
use meow_key.Store.Slots.{
  Store, store_get_credential_by_slot, store_find_by_credential_id, store_update_sign_count,
}
use meow_key.Store.Count.{IsCounted}
use meow_key.Store.Steps.{update, operate, IsStorableIn, operate-IsCounted}
use meow_key.WebAuthn.Entries.{Bytes}
use meow_key.WebAuthn.GetRequest.{GetRequest}
use meow_key.WebAuthn.AuthData.{build_assertion_auth_data}
use meow_key.WebAuthn.Assertion.{
  or_zero, build_hmac_secret_assertion_extensions, sign_assertion, signed_assertion,
  counted_assertion, respond_with_assertion,
}
use meow_key.WebAuthn.Matching.{
  is_of_rp, collect_matching_slots, matching, collect_matching_slots-take,
}
use meow_key.WebAuthn.Outcome.{some-keeps, if-keeps}
use meow_key.WebAuthn.Pending.{Pending}
use meow_key.WebAuthn.Confirmation.{consume_recent_assertion_up_if_matching}
use meow_key.WebAuthn.Session.{Session, Call, no_pending}
use meow_key.WebAuthn.Assertions.{
  respond_from, queued, respond_and_arm, confirm_then_respond, assert_allowed, queue_if_ok,
  assert_matching,
}

-- The queue has the slots that it counts, at most 128, and its index is not beyond them.
pub record IsQueue (q : Pending GetRequest) : Type 0 where
  pub all : q.credential_count ≡ length q.slot_indices
  pub few : q.credential_count ≤ 128
  pub inside : q.next_index ≤ q.credential_count

-- The store counts its credentials, and the queue is one.
pub record IsSound (s : Session) : Type 0 where
  pub store : IsCounted s.store
  pub queue : IsQueue s.pending

-- What comes with a reply is sound.
pub record Keeps (x : Reply × Session) : Type 0 where
  pub kept : IsSound x.1

record Counts (x : Reply × Store) : Type 0 where
  kept : IsCounted x.1

pub no_pending-IsQueue : IsQueue no_pending
no_pending-IsQueue = record { all = refl; few = omega arith; inside = omega arith }

update-IsCounted :
    (appends : Bool) (i count : ℕ) (st : Store)
    → IsCounted st
    → IsCounted (store_update_sign_count appends i count st).1
unfolding operate IsStorableIn
update-IsCounted appends i count st h = operate-IsCounted (update appends i count) st tt h

module _ (p : Primitives) (sign : List ℕ → List ℕ → Option (List ℕ))
    (image : GetRequest → List ℕ) where
  signed-Counts :
      (k : Option (List ℕ × List ℕ)) (appends : Bool) (r : CredentialRecord)
      (auth_data hash : List ℕ) (i : ℕ) (number : Option ℕ) (capacity : ℕ) (st : Store)
      → IsCounted st
      → Counts (signed_assertion p k sign appends r auth_data hash i number capacity st)
  unfolding signed_assertion
  signed-Counts k appends r auth_data hash i number capacity st h =
      let u = update-IsCounted appends i r.sign_count st h in
      let u' = store_update_sign_count appends i r.sign_count st in
      if-keeps Counts (not ((sign_assertion p k sign r auth_data hash).0 == 0)) _ _
        (λ e. record { kept = h })
        (λ e. if-keeps Counts (not u'.0) _ _ (λ e. record { kept = u }) (λ e. record { kept = u }))

  respond-Counts :
      (k : Option (List ℕ × List ℕ)) (appends : Bool) (request : GetRequest) (i : ℕ)
      (number : Option ℕ) (capacity : ℕ) (st : Store)
      → IsCounted st
      → Counts (respond_with_assertion p k sign appends request i number capacity st)
  unfolding respond_with_assertion counted_assertion
  respond-Counts k appends request i number capacity st h =
      some-keeps Counts (store_get_credential_by_slot i st) _ _ (record { kept = h })
        (λ r e.
          let r' : CredentialRecord = record r { sign_count = add32 r.sign_count 1 } in
          let extended = build_hmac_secret_assertion_extensions p k sign r' request in
          if-keeps Counts (not (extended.0 == 0)) _ _ (λ e. record { kept = h })
            (λ e.
              some-keeps Counts
                (build_assertion_auth_data p r.rp_id r.rp_id_length r'.sign_count extended.1
                  request.user_verified 160)
                _ _ (record { kept = h })
                (λ auth_data e. signed-Counts k appends _ auth_data _ i number capacity st h)))

  pub respond_from-IsSound :
      (c : Call) (request : GetRequest) (i : ℕ) (number : Option ℕ) (capacity : ℕ) (s : Session)
      → IsSound s
      → IsSound (respond_from p sign image c request i number capacity s).1
  unfolding respond_from
  respond_from-IsSound c request i number capacity s h =
      let k =
        respond-Counts s.pin.key_agreement c.commits request i number capacity s.store h.store in
      record { store = k.kept; queue = h.queue }

  confirm-Keeps :
      (c : Call) (key : List ℕ) (request : GetRequest) (i : ℕ) (number : Option ℕ) (capacity : ℕ)
      (s : Session)
      → IsSound s
      → Keeps (confirm_then_respond p sign image c key request i number capacity s)
  unfolding confirm_then_respond respond_and_arm
  confirm-Keeps c key request i number capacity s h =
      let recent = (consume_recent_assertion_up_if_matching c.asked_ms key s.recent).1 in
      let s1 : Session = record s { recent = recent } in
      let h1 : IsSound s1 = record { store = h.store; queue = h.queue } in
      let k = respond_from-IsSound c request i number capacity s1 h1 in
      let reused = (consume_recent_assertion_up_if_matching c.asked_ms key s.recent).0 in
      let status = (respond_from p sign image c request i number capacity s1).0.0 in
      if-keeps Keeps (not reused && not (c.wait_status == 0)) _ _ (λ e. record { kept = h1 })
        (λ e.
          if-keeps Keeps (status == 0 && not reused) _ _
            (λ e. record { kept = record { store = k.store; queue = k.queue } })
            (λ e. record { kept = k }))

  pub allowed-Keeps :
      (c : Call) (key : List ℕ) (request : GetRequest) (id : Bytes) (capacity : ℕ) (s : Session)
      → IsSound s
      → Keeps (assert_allowed p sign image c key request id capacity s)
  unfolding assert_allowed
  allowed-Keeps c key request id capacity s h =
      some-keeps Keeps (store_find_by_credential_id id.content id.size s.store) _ _
        (record { kept = h })
        (λ found e.
          if-keeps Keeps (not (is_of_rp (or_zero request.rp_id) found.1)) _ _
            (λ e. record { kept = h }) (λ e. confirm-Keeps c key request found.0 none capacity s h))

  queue-Keeps :
      (c : Call) (request : GetRequest) (slots : List ℕ) (x : Reply × Session)
      → length slots ≤ 128
      → Keeps x
      → Keeps (queue_if_ok p sign image c request slots x)
  unfolding queue_if_ok queued
  queue-Keeps c request slots (reply, s) few h =
      if-keeps Keeps (not (reply.0 == 0)) _ _ (λ e. h)
        (λ e. record {
          kept =
              if-keeps IsSound (ltb 1 (length slots)) _ _
                (λ some_left. record {
                  store = h.kept.store;
                  queue = record {
                    all = refl;
                    few = few;
                    inside = ground (arith, ltb→lt 1 (length slots) some_left);
                  };
                })
                (λ e. h.kept);
        })

  pub matching-Keeps :
      (c : Call) (key : List ℕ) (request : GetRequest) (slots : List ℕ) (capacity : ℕ) (s : Session)
      → length slots ≤ 128
      → IsSound s
      → Keeps (assert_matching p sign image c key request slots capacity s)
  unfolding assert_matching
  matching-Keeps c key request [] capacity s few h = record { kept = h }
  matching-Keeps c key request (i ∷ rest) capacity s few h =
      queue-Keeps c request (i ∷ rest) _ few (confirm-Keeps c key request i _ capacity s h)

  pub length-collect :
      (rp_id : Bytes) (st : Store) → length (collect_matching_slots rp_id 128 st) ≤ 128
  length-collect rp_id st =
      let e = ap length (collect_matching_slots-take rp_id 128 st) in
      let m = length-take 128 (matching rp_id st.slots 0 (length st.slots)) in omega (arith, e, m)
