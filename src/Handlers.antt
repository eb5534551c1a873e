-- ===== src/Handlers.antt =====
-- internal/handlers: the HTTP handlers.
pub mod Http
pub mod Scopes
pub mod Firewall
pub mod Certificates
pub mod Accounts
