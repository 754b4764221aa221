-- ===== src/Engine.antt =====
-- src/engine: from Kafka to Redis.
pub mod Bridge
pub mod Processing
pub mod Snapshots
pub mod Consumer
