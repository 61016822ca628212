-- ===== src/Tests.antt =====
-- The theorems at concrete inputs, and runs of the definitions.
pub mod Protocol
pub mod Framing
pub mod Replies
pub mod Auth
pub mod Command
pub mod Router
pub mod Cache
pub mod Store
pub mod Index
pub mod Session
