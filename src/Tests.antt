-- ===== src/Tests.antt =====
-- Runs of the router on small concrete inputs.
mod Fixtures
mod Selection
mod Accounting
mod Router
mod Delta
mod Dispatch
mod Configuration
mod Sessions
mod Store
mod Stream
mod Traffic
