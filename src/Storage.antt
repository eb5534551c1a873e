-- ===== src/Storage.antt =====
-- internal/storage: the PostgreSQL provider.
pub mod Sql
pub mod Whitelist
pub mod Accounts
pub mod Users
pub mod Certificates
