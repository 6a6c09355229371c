-- ===== src/Consumer.antt =====
-- The consumer (consumer/api/cpp).
pub mod Tcp
pub mod Service
