-- ===== src/McpServer/Mirror.antt =====
-- What history keeps of the messages that the tools send.
use telegram_mcpvscode.Json.Serde.{Serde}
use telegram_mcpvscode.History.Conn
