-- ===== src/Tls.antt =====
-- The namespace Tls.
pub mod Heartbeat
pub mod RecordFrame
