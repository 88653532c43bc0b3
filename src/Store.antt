-- ===== src/Store.antt =====
-- The credential store (src/credential_store.c): the slots and the operations on them, the flash with its
-- images and its journal, and what survives a cut of the power.
pub mod Slot
pub mod Slots
pub mod Search
pub mod Count
pub mod Steps
pub mod Refused
pub mod Added
pub mod Payload
pub mod Flash
pub mod Image
pub mod Images
pub mod Machine
pub mod Changes
pub mod Load
pub mod Clean
pub mod Kept
pub mod Durable
pub mod Commit
pub mod Committed
pub mod Ready
pub mod Append
pub mod Journal
pub mod SetCount
pub mod Update
pub mod Calls
pub mod Stepped
pub mod Reboot
pub mod Refinement
pub mod PowerCut
pub mod Atomic
pub mod Powered
pub mod Rollback
