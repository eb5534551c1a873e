-- ===== src/Jobs.antt =====
-- internal/jobs: the background jobs.
pub mod FirewallSync
pub mod FirewallExpiration
pub mod Certificates
pub mod JobManager
