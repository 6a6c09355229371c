-- ===== src/Producer.antt =====
-- The producer (producer/api/cpp/src).
pub mod Discovery
pub mod Request
pub mod Send
pub mod Tcp
pub mod EventMonitor
