-- ===== src/Models.antt =====
-- internal/models: the data that the components exchange.
pub mod Address
pub mod Certificate
pub mod Principal
pub mod Whitelist
