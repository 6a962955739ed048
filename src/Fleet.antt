-- ===== src/Fleet.antt =====
-- fleet/src: the orchestrator of a fleet of game servers.
mod Examples
mod StateExamples
mod ControlExamples
mod SyncExamples
pub mod Model
pub mod RoomId
pub mod FleetState
pub mod EventReconciler
pub mod Poller
pub mod FleetControl
pub mod Snapshot
pub mod Sync
pub mod CommandEngine
