-- ===== src/Tests.antt =====
-- The theorems at concrete inputs.
mod ClientPin
mod Cbor
mod CtapHid
mod UserPresence
mod Store
mod Flash
mod Durable
mod Refinement
mod WebAuthn
mod Creation
mod Assertions
mod Ctap2
