-- ===== src/Updater.antt =====
-- The `tg-updater` crate: from `getUpdates` to the history store (crates/tg-updater/src).
pub mod Mapping
pub mod Polling
