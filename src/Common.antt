-- ===== src/Common.antt =====
-- The code that the programs share (common/cpp).
pub mod Networking
pub mod RequestPool
pub mod Encoding
pub mod SystemIo
pub mod Database
pub mod DataStructs
