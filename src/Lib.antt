-- ===== src/Lib.antt =====
-- The host core of the rs2 runtime, a multi-tenant web runtime in Rust: the parts of rs2-core that
-- decide what is let through, where a request goes, how often a call is made and what is remembered.
--
-- A request comes in as a message of a tenant, which the host resolves by the host name. It checks
-- the path, asks the tenant's breaker, answers a preflight or applies the CSRF guard, runs the
-- chain of authenticators, routes the path to a mount, checks the mount's access config and the
-- declared size, asks the limiter for a permit, and calls the service of the mount, under an
-- idempotency key where the request has one. The response gets the cache headers of its mount and
-- the CORS headers of its origin; a breach of a limit is recorded with the breaker. The calls of a
-- pipeline go through the retry loop, and come back to the host as messages of its own, or leave it
-- by a grant of the mount. The scheduler fires mounts at their times and claims each occurrence.
-- These parts share the message, the error and the JSON value; each keeps its own state, behind a
-- lock, and the state of each is passed explicitly here. A run is a list of operations, or the way
-- to a reachable state.
--
-- Files, and the code that they model:
--   Error, Json         rs2-core/src/error.rs (Problem: the problem-details body), and serde_json's value
--                       as the runtime uses it (Equality: its ==)
--   Message             rs2-core/src/message/message.rs and body.rs (Materialize: Body::materialize;
--                       Url: MsgUrl; MediaTypes: media_type.rs; Content: a body as JSON,
--                       as a value or as text)
--   Crypto              rs2-core/src/crypto.rs, the hex codec
--   Retry               rs2-core/src/retry.rs (Delay: the backoff; Loop: retry_request)
--   Authn               rs2-core/src/authn.rs, the chain of authenticators
--   Router              rs2-core/src/router/mod.rs (Paths: validate_path; Table: MountTable; Mounting: a
--                       matched path and MsgUrl::apply_mount)
--   Wrapper             rs2-core/src/wrapper/mod.rs (Access: check_access and its role specs;
--                       Breaker: TenantBreaker; Limiter: TenantLimiter; Cors: CorsPolicy; Cache:
--                       CachePolicy; Vary: append_header_value)
--   Idempotency         rs2-core/src/idempotency.rs (Slots, Sweep, Runs, Replay, Contract and Capacity
--                       are about MemIdempotencyStore; Http: the scope, the payload hash, the capture
--                       and the replay of a response)
--   Scheduler           rs2-core/src/scheduler.rs (Cron: cron schedules; Config: Schedule; Claims:
--                       MemScheduleStore)
--   PathPattern         rs2-core/src/path_pattern.rs (Parse: the reading of a placeholder; Select: eval_url,
--                       eval_data and query_get; Resolve: resolve and validate)
--   Listing             rs2-core/src/listing.rs (Meta: MetaField and MetaSort)
--   MemData             rs2-core/src/adapters/mem_data.rs
--   MemQuery            rs2-core/src/adapters/mem_query.rs, over the scan of a data store (Meets: the
--                       meaning of the operators; Selection and InOrder: the rows and their order)
--   Pipeline            rs2-core/src/pipeline (Spec: spec.rs; Segments: segments.rs; Condition: condition.rs,
--                       with its Parser; Validation: PipelineSpec::validate; Response: response.rs;
--                       Transform: transform.rs)
--   Pipeline/Executor   rs2-core/src/pipeline/executor.rs (Base: its types, and the copies of messages; Target,
--                       Request and Call: run_call; Step: run_step; Fanout: run_split and join; Parallel: run_parallel;
--                       Serial: run_serial; Run: the other modes, run_pipeline and run; Log and Every: a property
--                       of all requests, along the parts of a run; Sample: a world and pipelines to run)
--   Outbound            rs2-core/src/outbound.rs
--   Runtime             rs2-core/src/runtime.rs (Guard: the idempotency key around a service)
--   Common              lists, texts, a stable sort and maps that the others share
-- A definition has the name of the function or type that it models; the line above it names the
-- function where the two differ. A file called Laws, or named for what it proves, has proofs; Tests has
-- runs at concrete inputs.
--
-- A text is the list of its code points, so that a `String` and a `&str` are one type; the length of
-- one in bytes is computed from the code points. A hash map is a function from keys where only lookups
-- matter, and a list where its size or its iteration does. Instants and durations are natural
-- numbers, on one clock for each component. Wrap-around is written out where a counter can wrap.
--
-- Not under the repository's source, or reached through a trait, and so parameters: the
-- authenticators, the header map of the http crate (the record HeaderApi with its laws, of which
-- Message/Headers has one made of a list), percent decoding, SHA-256, floating-point arithmetic and
-- the random source of the backoff, the parser of Retry-After, and the calendar of the time crate,
-- the display of a JSON value, the comparison of JSON numbers as f64 and the reading of one from a
-- text, `sort_by` of slices in a query, whose comparison need not be an order, and the http crate's
-- reading of methods and header names. The check and the evaluation of a JSONata expression, UTF-8,
-- base64, and the text of a JSON value are parameters, too. The record World of the executor has
-- those that a pipeline uses, with the requester and the outbound adapter, each a function of the
-- place of a call, its attempt and the request, and the order in which the branches of a split or a
-- parallel block complete.
--
-- Bounds: a retry loop has as many rounds as its attempts are capped, the search for an occurrence
-- one for each minute of 366 days, the expansion of a cron range 256, since its values are bytes,
-- and a number prints in 20 digits, since it is a u64. The loops over a pattern have one round more
-- than the pattern has characters, and the parser of conditions has six calls for each character
-- and five more. A pipeline runs the ones nested in it at one level less of what max_depth leaves,
-- and at none left it gives the error that the source gives above max_depth. Each is at least the
-- number of rounds that the loop of the source can make.
--
-- Not modelled: the asynchronous machinery and the locks themselves (each operation of a store is
-- one step), the engines that run guest code, the services and their storage adapters, the servers
-- and their sockets, the trace ids, the waits, the wall clock and the report of the steps of a
-- pipeline, the command line, and reading configurations with serde.
pub mod Common
pub mod Json
pub mod Error
pub mod Message
pub mod Retry
pub mod Router
pub mod Wrapper
pub mod Idempotency
pub mod Crypto
pub mod Scheduler
pub mod Authn
pub mod PathPattern
pub mod Listing
pub mod MemData
pub mod MemQuery
pub mod Pipeline
pub mod Runtime
pub mod Outbound
