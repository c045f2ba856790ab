-- ===== src/Lib.antt =====
-- The LLM provider router: a proxy that spreads requests for a model over the API keys of several
-- providers, learns from failures which keys to leave out and for how long, and keeps a session on
-- its key.
--
-- A request names an alias. The alias has an ordered pool of physical models, and each has a pool
-- of keys. `order_targets` orders the models, `select_key_excluding` picks a key of one, and the
-- request goes upstream; a failure is classified by the error rules and changes the router state,
-- which is mirrored in SQLite; every request is accounted in the usage store.
--
-- - Config: `KeyRef`, `ModelAlias` and the configuration types (src/config.rs,
--   src/config/v2/types.rs).
-- - Config/Resolve, Config/Validate, Config/Fold, Config/Mutate: the files of these names under
--   src/config/v2. The searches through logical models run on fuel; one more than the number of
--   logical models is enough, since a name that is being visited is not opened again.
-- - ErrorRules: classes of failures, rules, templates, tunables (src/error_rules.rs); ErrorRules/
--   Presets holds the built-in rules.
-- - Usage: the accounting of tokens (src/usage_store.rs) and `usage_key_name`
--   (src/features/chat/select.rs). The table of events is a list, a query a filter and a fold.
-- - StateStore: the tables of the router state (src/state_store.rs) as dictionaries, each statement
--   a function.
-- - Router/Selection: `order_targets`, the weighted and the priority picks
--   (src/features/router/selection.rs).
-- - Router/Freeze: recovery times of limited keys (src/features/router/freeze.rs).
-- - Router/State: `RouterState` and its operations, Router/Select: `select_key_excluding` and
--   `usage_adjusted_pick` (src/features/router/state/mod.rs).
-- - Router/Routing: `route_aliases` (src/features/router/state/routing.rs), `usage_preferred_index`
--   (src/features/router/selection.rs), `custom_alias_models` (src/features/router/state/v2.rs).
-- - Router/Failure: the handlers of failures (src/features/router/failure.rs).
-- - Router/Failure/Embedded: error events in answers of status 200, and what a success clears
--   (src/features/router/failure.rs, src/features/chat/select.rs).
-- - Router/State/Steps: what it means that every step on the state keeps a property, with the mirror
--   of the tables (Router/State/Mirror/Steps) and Router/State/Lasting as implementations, and
--   Router/Select/Kept, Router/Failure/Kept and Dispatch/Kept as clients.
-- - Dispatch: the loop of a call that is not streamed (`call_responses_passthrough` and
--   `call_upstream_responses` of src/routes/responses.rs, `call_anthropic_passthrough` of
--   src/routes/messages.rs); Dispatch/Failover: the failover over models (`responses_inner`), with
--   what its calls come to in Dispatch/Failover/Replies. The loop runs on fuel, and a number above
--   the keys of the pool times the attempts for one key is enough. What other requests do between
--   two locks is a function on the state in each round.
-- - Responses/Delta: the cache of request contexts that deltas extend
--   (src/features/responses/delta.rs). Each locked section is one step of its state; `apply_delta` is
--   two of them, between which other requests may run. The loop of `evict_lru` runs on fuel, and the
--   number of sessions is enough of it, since each round removes one.
-- - Responses/Store: the bounded store of responses (src/features/responses/store.rs); its loop that
--   makes room has the number of entries as fuel, which is enough for the same reason.
-- - Responses/Sse: the events of a Responses stream (`ResponsesSse` of
--   src/features/responses/stream/mod.rs); Sse/Chunks is `feed`, Sse/Snapshot the `Response` object,
--   Sse/Stream `finish` and a stream as a list of chunks with an end. What is written is a list of
--   events instead of a text, and ids are drawn from a counter that is part of the state.
--   Sse/Protocol is the reader of such a stream.
-- - Traffic: the bytes sent and received, by session and in buckets of a second (src/traffic.rs); the
--   three arrays of a group of buckets are one list of slots.
-- - Prelude: texts as lists of code points, dictionaries as association lists, JSON values.
-- - Tests: runs on concrete inputs.
--
-- Times are natural numbers of milliseconds, where the source has seconds as `f64` or an `Instant`.
-- The clock's reading is an argument of a call. An operation that can fail answers with the state it
-- leaves and whether it succeeded; `conn_ok` of a store says whether SQLite executes statements.
-- What the router takes from libraries (SHA-256, serialization, the random generator, regular
-- expressions, dates, the lower case of a text) are fields of `Sampler`, `Env` and `Hasher`; the
-- results assume of them only that a draw stays below its bound. The total of weights and the counts
-- that wrap around are written with their width. Fractions of tokens over weights are compared
-- exactly. The loops without a fuel follow a list; printing a number takes one round a digit, and
-- its fuel is above the number.
--
-- Not modelled: HTTP, the loops of streamed calls and the translation of payloads, searching, the front proxy and the
-- processes around it, the reading and writing of configuration files, the dashboard.
pub mod Config
pub mod Dispatch
pub mod ErrorRules
pub mod Prelude
pub mod Responses
pub mod Router
pub mod StateStore
pub mod Tests
pub mod Traffic
pub mod Usage
