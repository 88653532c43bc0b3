-- ===== src/WebAuthn/Pending.antt =====
-- The credentials that match a getAssertion of src/webauthn.c, and the queue that getNextAssertion
-- answers from.
use meow_key.Prelude.{ℕ, ◌≤◌, Bool, true, false, ◌||◌, not, List, [], ◌∷◌, Option, none, some}
use meow_key.Prelude.{get_or, ltb, leb, ◌==◌, if◌then◌else◌, sub32, add32}

-- `pending_assertion_state_t`, with the type of the request as a parameter.
pub record Pending (Request : Type 0) : Type 0 where
  pub active : Bool
  pub request : Request
  pub slot_indices : List ℕ
  pub credential_count : ℕ
  pub next_index : ℕ
  pub last_used_ms : ℕ

-- Each call comes at most 30000 ms after the one before, by the clock of 32 bits.
unfoldable pub IsInTime : ℕ → List (ℕ × ℕ) → Type 0
IsInTime last_ms [] = Unit
IsInTime last_ms ((now_ms, used_ms) ∷ rest) = (sub32 now_ms last_ms ≤ 30000) × IsInTime used_ms rest

-- The request of zeros, and what `respond_with_assertion` gives for a request and a slot: its status and
-- the response.
module _ {Request Answer : Type 0} (no_request : Request) (respond : Request → ℕ → ℕ × Answer) where
  unfoldable pub clear_pending_assertion : Pending Request
  clear_pending_assertion = record {
    active = false;
    request = no_request;
    slot_indices = [];
    credential_count = 0;
    next_index = 0;
    last_used_ms = 0;
  }

  unfoldable pub pending_assertion_is_current : ℕ → Pending Request → Bool × Pending Request
  pending_assertion_is_current now_ms p =
      if not p.active
      then (false, p)
      else if ltb 30000 (sub32 now_ms p.last_used_ms)
      then (false, clear_pending_assertion)
      else (true, p)

  -- The status and the response, from the length of the request and the clock before and after the
  -- response.
  unfoldable pub get_next_assertion :
      ℕ → ℕ → ℕ → Pending Request → (ℕ × Option Answer) × Pending Request
  get_next_assertion request_length now_ms used_ms p =
      if not (request_length == 0)
      then ((0x12, none), p)
      else (let (current, q) = pending_assertion_is_current now_ms p in
          if not current || leb q.credential_count q.next_index
          then ((0x30, none), clear_pending_assertion)
          else (let (status, answer) = respond q.request (get_or q.slot_indices q.next_index 0) in
              if not (status == 0)
              then ((status, none), clear_pending_assertion)
              else if leb q.credential_count (add32 q.next_index 1)
              then ((0, some answer), clear_pending_assertion)
              else (
                (0, some answer),
                record q { next_index = add32 q.next_index 1; last_used_ms = used_ms },
              )))

  -- Calls in turn, each with the clock before and after: what each of them answers.
  unfoldable pub next_all :
      List (ℕ × ℕ) → Pending Request → List (ℕ × Option Answer) × Pending Request
  next_all [] p = ([], p)
  next_all ((now_ms, used_ms) ∷ rest) p =
      let (reply, q) = get_next_assertion 0 now_ms used_ms p in
      let (more, last) = next_all rest q in (reply ∷ more, last)

  -- The responses for these slots.
  unfoldable pub answered : Request → List ℕ → List (ℕ × Option Answer)
  answered request [] = []
  answered request (slot ∷ rest) = (0, some (respond request slot).1) ∷ answered request rest
