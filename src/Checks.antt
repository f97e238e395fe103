-- ===== src/Checks.antt =====
-- internal/checks: the version checks and the metric checks, and what they promise.
pub mod Image
pub mod Version
pub mod Values
pub mod Metrics
pub mod Reads
pub mod Calm
pub mod Silent
pub mod Scans
pub mod Strict
pub mod Lenient
pub mod AnyOrder
pub mod Tags
pub mod Reduce
pub mod Plural
pub mod Passing
