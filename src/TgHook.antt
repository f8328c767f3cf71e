-- ===== src/TgHook.antt =====
-- The hook program (crates/tg-hook/src): its parts, and the two flows that they make up.
pub mod Cli
pub mod Discovery
pub mod LocalInput
pub mod McpClient
pub mod Poll
pub mod Question
pub mod Run
pub mod Waiting
pub mod Wake
