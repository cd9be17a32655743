-- ===== src/Verify.antt =====
-- How two routers' advertisements are compared (internal/corerad/verify.go).
pub mod Problems
pub mod Checks
pub mod Loops
pub mod Ras
pub mod Consistency
pub mod Text
