-- ===== src/Advertiser.antt =====
-- The Advertiser (internal/corerad/advertise.go): what each handler and each step of its loops does.
pub mod Timing
pub mod Messages
pub mod Goroutines
pub mod Session
pub mod Running
