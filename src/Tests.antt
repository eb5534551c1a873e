-- ===== src/Tests.antt =====
-- Instances of the theorems at concrete inputs, and runs of the code.
mod Network
mod Whitelist
mod Examples
mod Sync
mod System
mod Success
mod Tokens
mod Caches
mod Certificates
mod Accounts
mod Cluster
mod Logins
mod Routers
