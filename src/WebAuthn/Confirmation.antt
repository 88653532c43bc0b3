-- ===== src/WebAuthn/Confirmation.antt =====
-- The confirmation of an assertion in src/webauthn.c: a wait that ends with OK, or one that did so for
-- the same request a moment before.
use meow_key.Prelude.{ℕ, ◌+◌, ◌≤◌, Bool, true, false, not, List, [], ◌∷◌, ◌≡◌, arith}
use meow_key.Prelude.{ltb, ◌==◌, if◌then◌else◌, sub32, replicate}
use meow_key.Store.Slots.{same_bytes}

-- `recent_assertion_up_state_t`
pub record RecentUp : Type 0 where
  pub active : Bool
  pub request_match_key : List ℕ
  pub granted_ms : ℕ

abbrev pub reuse_window_ms : ℕ
reuse_window_ms = 1200

unfoldable pub clear_recent_assertion_up : RecentUp
clear_recent_assertion_up = record {
  active = false;
  request_match_key = replicate 32 0;
  granted_ms = 0;
}

unfoldable pub recent_assertion_up_is_current : ℕ → RecentUp → Bool × RecentUp
recent_assertion_up_is_current now_ms r =
    if not r.active
    then (false, r)
    else if ltb reuse_window_ms (sub32 now_ms r.granted_ms)
    then (false, clear_recent_assertion_up)
    else (true, r)

unfoldable pub consume_recent_assertion_up_if_matching : ℕ → List ℕ → RecentUp → Bool × RecentUp
consume_recent_assertion_up_if_matching now_ms key r =
    if not r.active
    then (false, r)
    else (let (current, r') = recent_assertion_up_is_current now_ms r in
        if not current
        then (false, r')
        else if not (same_bytes 32 r'.request_match_key key)
        then (false, r')
        else (true, clear_recent_assertion_up))

unfoldable pub arm_recent_assertion_up : ℕ → List ℕ → RecentUp
arm_recent_assertion_up now_ms key = record {
  active = true;
  request_match_key = key;
  granted_ms = now_ms;
}

-- What a request for an assertion meets: its key, the readings of the clock, and the statuses of the
-- wait and of the making of the response.
pub record Assertion : Type 0 where
  pub key : List ℕ
  pub asked_ms : ℕ
  pub answered_ms : ℕ
  pub wait_status : ℕ
  pub respond_status : ℕ

-- The part of `meowkey_webauthn_get_assertion` from the reuse of a confirmation to the end: the status,
-- and whether a wait has ended with OK.
unfoldable pub confirm_and_respond : Assertion → RecentUp → ℕ × Bool × RecentUp
confirm_and_respond a r =
    let (reused_recent_up, r') = consume_recent_assertion_up_if_matching a.asked_ms a.key r in
    if reused_recent_up
    then (a.respond_status, false, r')
    else if not (a.wait_status == 0)
    then (a.wait_status, false, r')
    else if not (a.respond_status == 0)
    then (a.respond_status, true, r')
    else (a.respond_status, true, arm_recent_assertion_up a.answered_ms a.key)

abbrev pub one_if : Bool → ℕ
one_if true = 1
one_if false = 0

-- How many of the requests are answered with an assertion, and how many waits end with OK.
unfoldable pub answers : List Assertion → RecentUp → ℕ
answers [] r = 0
answers (a ∷ rest) r =
    let (status, confirmed, r') = confirm_and_respond a r in one_if (status == 0) + answers rest r'

unfoldable pub confirmations : List Assertion → RecentUp → ℕ
confirmations [] r = 0
confirmations (a ∷ rest) r =
    let (status, confirmed, r') = confirm_and_respond a r in
    one_if confirmed + confirmations rest r'

-- A confirmation that is kept for a request with the same key, at most 1200 ms old by the clock of 32
-- bits.
pub record Reused (now_ms : ℕ) (key : List ℕ) (r : RecentUp) : Type 0 where
  pub active : r.active ≡ true
  pub recent : sub32 now_ms r.granted_ms ≤ 1200
  pub same_key : same_bytes 32 r.request_match_key key ≡ true

pub consume-Reused :
    (now_ms : ℕ) (key : List ℕ) (r : RecentUp)
    → (consume_recent_assertion_up_if_matching now_ms key r).0 ≡ true
    → Reused now_ms key r
unfolding consume_recent_assertion_up_if_matching recent_assertion_up_is_current
    clear_recent_assertion_up
consume-Reused now_ms key r e = record {
  active = ground (arith, e);
  recent = ground (arith, e);
  same_key = ground (arith, e);
}
