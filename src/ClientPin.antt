-- ===== src/ClientPin.antt =====
-- src/client_pin.c: the PIN, its retries, and the token that a right PIN is answered with.
pub mod Request
pub mod Crypto
pub mod State
pub mod Responses
pub mod Checks
pub mod Handlers
pub mod Retries
pub mod Token
