-- ===== src/Router.antt =====
-- The routing core (src/features/router): selection, freezing, failures and the router state.
pub mod Selection
pub mod Freeze
pub mod State
pub mod Select
pub mod Failure
pub mod Routing
