-- ===== src/TgClient.antt =====
-- The `tg-client` crate: the errors of crates/tg-client/src/error.rs, and the requests and replies of
-- crates/tg-client/src/client.rs.
pub mod Types
pub mod Methods
pub mod Raw
