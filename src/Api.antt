-- ===== src/Api.antt =====
-- The debug API's view of the advertisements (internal/crhttp/ra.go, handler.go).
pub mod Types
pub mod Pack
pub mod Interfaces
pub mod Routes
