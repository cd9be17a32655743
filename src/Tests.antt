-- ===== src/Tests.antt =====
-- Concrete runs of the models, and the theorems at concrete inputs.
pub mod Data
pub mod Plugins
pub mod Parsing
pub mod Comparing
pub mod Sending
pub mod Printing
pub mod Receiving
pub mod Dialing
pub mod Files
pub mod Starting
pub mod Stopping
pub mod Tasks
pub mod Watching
pub mod Serving
pub mod Reconnecting
pub mod Running
pub mod Measuring
