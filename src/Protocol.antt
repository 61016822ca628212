-- ===== src/Protocol.antt =====
-- src/protocol: status codes, request lines, and the message ids of src/types/protocol.rs.
pub mod Status
pub mod MessageId
pub mod Kind
pub mod Metadata
pub mod Request
pub mod Context
