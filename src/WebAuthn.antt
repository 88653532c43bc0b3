-- ===== src/WebAuthn.antt =====
-- WebAuthn (src/webauthn.c): the parsers of requests, the responses, and the handlers.
pub mod Entries
pub mod MakeRequest
pub mod GetRequest
pub mod Verified
pub mod Ensures
pub mod MakeBounds
pub mod GetBounds
pub mod UserVerified
pub mod AuthData
pub mod Assertion
pub mod Matching
pub mod Accepted
pub mod Created
pub mod Session
pub mod Assertions
pub mod Outcome
pub mod Answered
pub mod Confirmed
pub mod Isolation
pub mod AllowList
pub mod ExcludeList
pub mod GetAccepted
pub mod Sound
pub mod SoundHandlers
pub mod Confirmation
pub mod Pending
