-- ===== src/Controller.antt =====
-- internal/controller: the reconciler of each scale set's worker VMs.
pub mod Naming
pub mod ScaleSet
pub mod State
pub mod Observe
pub mod Prune
pub mod RetireReason
pub mod Scale
pub mod Freshness
pub mod Status
pub mod Reconcile
pub mod Safety
pub mod Worker
pub mod Register
pub mod Run
