-- ===== src/Storage/Certificates.antt =====
-- internal/storage/certificate_queries.go: the requests and their events.
pub mod Schema
pub mod Read
pub mod Write
pub mod Tracking
pub mod Loading
pub mod Life
pub mod Soundness
pub mod Recording
pub mod Paging
