-- ===== src/Cbor.antt =====
-- src/cbor.c: the reader and the writer, each with its bounds, and the reader on what the writer
-- leaves.
pub mod Reader
pub mod Writer
pub mod RoundTrip
pub mod Item
pub mod Skip
