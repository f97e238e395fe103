-- ===== src/Aws.antt =====
-- internal/aws/rds_auth.go: the shared AWS clients, RDS tokens and connection URLs.
pub mod Manager
pub mod Url
pub mod Encoding
pub mod Lifecycle
