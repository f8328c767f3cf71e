-- ===== src/History.antt =====
-- The `history` crate: the SQLite store of chats, messages, the full-text index and a key-value
-- table (crates/history/src).
pub mod Types
pub mod Conn
pub mod Sql
pub mod Schema
pub mod Store
pub mod Listing
