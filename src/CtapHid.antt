-- ===== src/CtapHid.antt =====
-- src/ctap_hid.c: the interfaces' state, the commands, and the framing of messages in packets.
pub mod State
pub mod Channels
pub mod Dispatch
pub mod Frames
pub mod Bounds
pub mod Reassembly
