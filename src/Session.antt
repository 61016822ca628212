-- ===== src/Session.antt =====
-- src/session: the state of a client session.
pub mod Mode
pub mod State
pub mod Policy
