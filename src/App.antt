-- ===== src/App.antt =====
-- src/app: the lifecycle channel of the device application. `Wire` is its frames (lifecycle/wire.rs),
-- `Lifecycle` the client that owns it (lifecycle.rs). `Input` is the gate of the pen (input.rs, state.rs).
-- `Refresh` is the policy of full refreshes (refresh_controller.rs).
pub mod Wire
pub mod Lifecycle
pub mod Input
pub mod Refresh
pub mod Examples
