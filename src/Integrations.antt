-- ===== src/Integrations.antt =====
-- The integrations/ folder: the calls of other protocols through the executor.
pub mod Http
pub mod Grpc
