-- ===== src/Logic.antt =====
-- The Logic role, internal/logic: leases in Redis, messages in MySQL, and dispatch to Kafka.
pub mod Routing
pub mod Dispatch
pub mod Messages
pub mod Publisher
pub mod Service
