-- ===== src/Cache.antt =====
-- src/cache: what the caches decide, store and serve, without the stores themselves.
pub mod Ttl
pub mod Payload
pub mod Codec
pub mod Serve
pub mod Ingest
pub mod Article
pub mod Merge
pub mod Disk
pub mod Hybrid
pub mod Index
