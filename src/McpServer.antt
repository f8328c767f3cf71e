-- ===== src/McpServer.antt =====
-- The MCP server: its start and configuration, the paths of the file tools, and the tools.
pub mod Config
pub mod Resolving
pub mod FilePaths
pub mod Inputs
pub mod Wire
pub mod Tools
pub mod Calls
pub mod Registry
pub mod Confined
pub mod Access
pub mod Mirror
pub mod Pages
pub mod Outbound
pub mod Retention
pub mod Startup
