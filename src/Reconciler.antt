-- ===== src/Reconciler.antt =====
-- orchestrator/reconciler.py: what is true of a network function, derived from helm and kubectl.
pub mod State
pub mod History
pub mod Pods
pub mod Reconcile
