-- ===== src/Responses.antt =====
-- src/features/responses: the caches behind the Responses API, and the events of its streams.
pub mod Delta
pub mod Store
pub mod Sse
