-- ===== src/SqliteEvents.antt =====
-- src/relprim/sqlite_events.py: the durable event store.
pub mod Database
pub mod Encoding
pub mod Connection
pub mod Schema
pub mod Query
pub mod Log
pub mod Store
