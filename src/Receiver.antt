-- ===== src/Receiver.antt =====
-- The receiver (receiver/src).
pub mod Authorization
pub mod Buffer
pub mod Cache
pub mod Connection
pub mod FilePath
pub mod DataServer
pub mod Factory
pub mod Request
pub mod Statistics
pub mod Streams
