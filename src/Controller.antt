-- ===== src/Controller.antt =====
-- controllers/dbupgrade_controller.go: the reconciler.
pub mod Result
pub mod Jobs
pub mod Secrets
pub mod PreChecks
pub mod PostChecks
pub mod Reconcile
pub mod Promise
pub mod Outcomes
pub mod Permitted
pub mod SecretWrites
pub mod CalmSecrets
pub mod CalmChecks
pub mod Lifecycle
pub mod JobStore
pub mod Moving
pub mod Moves
pub mod Runs
pub mod Willing
pub mod Converges
pub mod Watches
pub mod Stages
pub mod Safety
pub mod Answers
pub mod Completes
pub mod Gate
pub mod Open
pub mod Walk
pub mod Gated
pub mod Given
pub mod Begins
pub mod Bake
pub mod Lookup
pub mod StoredUrl
pub mod Admission
pub mod Tenants
pub mod Liveness
pub mod OneJob
pub mod Checked
pub mod Settled
