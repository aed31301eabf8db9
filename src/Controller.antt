-- ===== src/Controller.antt =====
-- internal/controller: the secret that remembers, the sleeping and waking of the included objects,
-- and the reconciler.
pub mod Secrets
pub mod Sleeping
pub mod Reconcile
