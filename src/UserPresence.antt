-- ===== src/UserPresence.antt =====
-- src/user_presence.c: its configuration, and the wait for a gesture of the user.
pub mod Config
pub mod Service
pub mod Wait
