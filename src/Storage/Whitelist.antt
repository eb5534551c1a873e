-- ===== src/Storage/Whitelist.antt =====
-- internal/storage/firewall_ip_whitelist_queries.go, and the event queries of audit_queries.go.
pub mod Schema
pub mod Read
pub mod Write
pub mod Soundness
pub mod Operations
pub mod Adding
pub mod Blacklist
pub mod Advancing
