-- ===== src/Services.antt =====
-- internal/services: the clients of other systems.
pub mod Firewall
