-- ===== src/Netip.antt =====
-- The parts of Go's net/netip (Go 1.23) that the program calls: addresses and CIDR prefixes.
pub mod Addr
pub mod Prefix
pub mod Cover
