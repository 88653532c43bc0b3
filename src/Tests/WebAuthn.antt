-- ===== src/Tests/WebAuthn.antt =====
-- src/webauthn.c at concrete inputs.
use meow_key.Prelude.{true, List, [], ◌∷◌, replicate}
use meow_key.Prelude.{ℕ}
use meow_key.WebAuthn.Pending.{Pending}
use meow_key.WebAuthn.Confirmation.{RecentUp, Assertion}

-- A confirmation at 5000 ms, and a request 900 ms later.
abbrev touched : RecentUp
touched = record { active = true; request_match_key = replicate 32 9; granted_ms = 5000 }

abbrev retry : Assertion
retry = record {
  key = replicate 32 9;
  asked_ms = 5900;
  answered_ms = 5950;
  wait_status = 0x2f;
  respond_status = 0;
}

-- Three credentials match, and the first has been answered.
abbrev queue : Pending ℕ
queue = record {
  active = true;
  request = 1;
  slot_indices = 4 ∷ 7 ∷ 9 ∷ [];
  credential_count = 3;
  next_index = 1;
  last_used_ms = 1000;
}

-- The response for a slot is one byte.
abbrev no_error : ℕ → ℕ → ℕ × List ℕ
no_error request slot = (0, slot ∷ [])
