-- ===== src/Lib.antt =====
-- nntp-proxy: an NNTP proxy between news readers and several backend servers.
--
-- A client's command line is parsed into a request context (src/protocol/request.rs), the command
-- handler plans what is done with it (src/command/handler.rs), AUTHINFO is answered by the proxy
-- itself (src/auth/handler.rs, src/session/auth_state.rs, src/session/common.rs), and a request that
-- is forwarded goes to a backend that the selector chooses (src/router/mod.rs). The bytes of a
-- backend are cut into responses by looking for the multiline terminator
-- (src/session/multiline_framing.rs), and a session with several requests in flight writes replies of
-- the backend and of the proxy in the order of the requests (`BackendResponseOrder`). What a
-- backend's response is recorded as is decided by src/session/routing, and src/cache keeps what was
-- learned of an article: its sections and the backends that miss it, in memory or on disk, or only the
-- misses in an index.
--
-- The files, with the code that each models:
--
--   Base        numbers, lists, bytes, results and searches that the other files share
--   Memchr      the searches of the `memchr` crate, a parameter with its documented results
--   Types       src/types.rs: `BackendId`
--   Protocol    Status: src/protocol/response.rs, `StatusCode`
--               MessageId: src/types/protocol.rs, `MessageId`
--               Kind: src/protocol/request.rs, `classify_verb`, `route_class`,
--               `request_kind_has_response_body`
--               Request: `RequestContext::parse`, `RequestLine`, `write_wire_to`
--               Metadata, Context: what `RequestContext` records and reports
--   Framing     `MultilineFramer`, `find_spanning_terminator`, `split_chunk`; Scan is the byte by
--               byte description that the searches are held against, Tail the bytes kept between
--               chunks, Chunks a stream in pieces, Policy what may follow a terminator
--   Replies     `PendingRequestFrame::consume`, `BackendReplyTracker`, `BackendResponseOrder`; Serves
--               is the specification of the queue as a relation
--   Command     `CommandHandler::classify_request`, `classify_auth`, `AuthenticationAccess`
--   Auth        `AuthHandler`, `ClientAuthState::decide`, `AuthState`, `handle_auth_command`
--   Router      `BackendSelector::select_backend` with its strategies (Weights, Loads, Selection), the
--               bitmaps of suppressed and missing backends (Bitmap), one round of
--               `route_selected_backend` and `CommandGuard` (Routing), the order of the tiers as backends
--               are added (Tiers), and the slots of stateful sessions (Slots, `StatefulCount`)
--   Cache       Ttl: src/cache/ttl.rs, with the time of a call as an argument
--               Payload: src/cache/article.rs, `CachedPayload`; Serve: `CachedResponseWire`,
--               `StackStatusLine`, `cached_response_for_payload`; Ingest: `parse_payload`,
--               `payload_for_status`, `parse_article_number`, and the captured payloads of
--               src/session/multiline_framing.rs
--               Article: `CachedArticle`; Merge: the merges of `ArticleCache`
--               Codec: src/cache/hybrid_codec.rs, `encode` and `decode` of `DiskCachedArticle`;
--               Layout is the format of each version
--               Disk: the rest of `DiskCachedArticle`; Hybrid: src/cache/hybrid.rs; Agrees and Records
--               compare what lookups of the two caches see after each call (Views, Lookups, Misses)
--               Index: src/cache/availability_index.rs, `FilterState` and the way to its buckets;
--               Storage is a `Generation` with its blocks, Sound and Retained what a lookup promises
--   Session     Mode: src/session/mode_state.rs, `ModeState`
--               State: src/session/state.rs, `SessionLoopState`
--               Policy: src/session/routing/cache_policy.rs and metrics_policy.rs
--   Tests       the theorems at concrete inputs
--
-- A struct is a record with the fields of the source, an enum a data type with its variants, a slice
-- of bytes a list of numbers. A function that changes its receiver returns the new one; fallible code
-- returns an option or a result. Machine words are 64 bits wide: saturating and wrapping operations
-- are written out, and sums of lengths, which cannot overflow for data in memory, are not reduced.
--
-- Loops are recursion on the data where it gets shorter. Where a loop moves an offset forward or cuts
-- at the end, it runs on fuel: `trim_line_end` and `terminator_ends_in_chunk` on the length of their
-- bytes, `accept_backend_bytes` on one more than the length of the chunk. Each round takes at least
-- one byte. `push_u64` runs 20 rounds, since a word has at most 20 digits. Theorems on the results hold
-- for the fuel that the definitions give.
--
-- A write to the client is a flag that says whether the writer takes the bytes. A cached response
-- and an encoded entry are written to a writer that takes all bytes, and an entry is read from the
-- bytes of the store, which may end too early. An operation of a cache is what happens under the lock
-- of its key: the entry that the store has for the key is an argument, and the entry that is stored is
-- the result. The hashes of the `twox_hash` crate are arguments, and an array of the index is a
-- function of its index.
--
-- The compare-exchange loop of `StatefulCount` is a relation of atomic steps of any number of tasks. A
-- selection reads each counter of a backend once, as one snapshot. Loads are the bits of non-negative
-- floating point numbers, which compare as the numbers do; their quotient is a parameter below
-- `f64::MAX`. The trimming of names, `str::trim` on Unicode text, is a parameter.
--
-- Not modelled: sockets, tasks, pools, TLS and compression, the stores of the caches with their
-- eviction, metrics, configuration and the terminal interface. Logging has no effect on what is
-- modelled and is left out.
pub mod Base
pub mod Memchr
pub mod Types
pub mod Protocol
pub mod Framing
pub mod Replies
pub mod Command
pub mod Auth
pub mod Router
pub mod Cache
pub mod Session
pub mod Tests
