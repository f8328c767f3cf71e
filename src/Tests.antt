-- ===== src/Tests.antt =====
-- The theorems at concrete inputs.
mod Data
mod Storage
mod Polling
mod Server
mod Upkeep
mod Hook
mod Pipe
mod Client
mod Flows
mod Startup
