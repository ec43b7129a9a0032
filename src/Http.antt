-- ===== src/Http.antt =====
-- Outbound HTTP: src/http.rs and src/http_execution.rs.
pub mod Url
pub mod Destination
pub mod Outbound
pub mod Body
