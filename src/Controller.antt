-- ===== src/Controller.antt =====
-- internal/controller: the parts of the reconciler around the sync engine.
pub mod Status
pub mod Namespace
pub mod ControlPlane
pub mod Decisions
pub mod Cadence
pub mod Apis
pub mod Isolate
pub mod Support
pub mod Sync
pub mod Reconcile
pub mod Admission
