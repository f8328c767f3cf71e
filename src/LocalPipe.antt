-- ===== src/LocalPipe.antt =====
-- The `local-pipe` crate (crates/local-pipe/src): the handshake of a pipe connection, the accept loop
-- of the pipe server with its discovery record and time stamp, and the ancestry of processes.
pub mod Auth
pub mod Server
pub mod Process
pub mod Civil
pub mod Discovery
