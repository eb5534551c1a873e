-- ===== src/Middlewares.antt =====
-- internal/middlewares: who a request comes from.
pub mod Base64
pub mod Token
pub mod Header
pub mod Auth
