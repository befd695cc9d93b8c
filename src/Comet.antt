-- ===== src/Comet.antt =====
-- The Comet role, internal/comet: local connections and their delivery.
pub mod Hub
pub mod Validation
pub mod Instance
pub mod Rpc
pub mod Handler
