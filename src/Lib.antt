-- ===== src/Lib.antt =====
-- Telegram MCP: a server that lets a client of the Model Context Protocol use a Telegram bot. It
-- keeps a local history of the bot's chats, which an updater fills from `getUpdates` and which the
-- tools read and search.
--
-- The parts, and the files that model them:
--   crates/history      History: Types (types.rs, error.rs); Conn, the four tables and how a statement
--                       and a transaction run on them; Sql, the SQL statements as functions on the
--                       tables; Store and Listing, the methods of `History` (store.rs); Schema, the
--                       migrations (schema.rs)
--   crates/aliases      Aliases
--   crates/tg-client    TgClient: Types, the result types and the errors; Methods and Raw, the methods of
--                       `TgClient` through teloxide and over raw JSON (client.rs)
--   crates/tg-updater   Updater: Mapping (mapping.rs) and Polling (polling.rs)
--   crates/local-pipe   LocalPipe: Auth, the handshake of a pipe connection (auth.rs); Server, the accept
--                       loop, and Civil, the time stamp of the record (server.rs); Discovery, the record
--                       file over the life of a server (discovery.rs, server.rs); Process, the snapshot
--                       of the processes and the ancestry of one (process.rs)
--   crates/mcp-server   McpServer: Config (config.rs), Inputs (tools_io.rs), FilePaths, Wire, Tools and
--                       Calls (main.rs, error.rs); Registry, the table of the tools and the dispatch by
--                       name (main.rs); Outbound joins the tools to the client's methods; Retention, the
--                       retention task and the command line, and Startup, from the arguments to a server
--                       that runs (main.rs, config.rs)
--   crates/tg-hook      TgHook: Poll (poll.rs), McpClient (mcp_client.rs), Cli (cli.rs), Discovery
--                       (discovery.rs), LocalInput (local_input.rs), Question (question.rs), Wake
--                       (wake.rs), and Waiting and Run, the two flows (main.rs, output.rs,
--                       stop_input.rs)
-- Json has the documents that the Bot API delivers. Prelude has what the parts share: lists and
-- integers over the native numbers, decimal texts, sorting. Tests has the theorems at concrete inputs.
--
-- How they interact: the updater calls `map_update` on each update, and `record_inbound`, `kv_get` and
-- `kv_put` of the store; a tool resolves its chat by the aliases, asks the Bot API, and mirrors what it
-- sent by `touch_chat_last_seen` and `insert_message`. The hook finds the server's record, connects to
-- its pipe, sends a message through its tools, and polls its history for replies. The definitions
-- compose in the same way.
--
-- State and effects. An action on the store takes a connection, which is the tables and a list of
-- faults, and gives a result and the connection after it. Each statement takes the next fault: if that
-- is true the statement fails and has no effect, and past the end of the list no statement fails. A
-- theorem for all connections is therefore one for all ways in which statements may fail. A
-- transaction that fails, at its commit too, leaves the tables as it found them. A tool runs on such a
-- connection and a log of the requests to the Bot API. The lock around the connection lets one action
-- run at a time, so actions follow one another.
--
-- Parameters. `Serde` is serde_json: a document with no float, nested at most 127 deep, reads back as
-- it was written. `Fts` is the matching and the snippets of FTS5. `Bot` gives the answers of the Bot
-- API, which may depend on all requests before. The updater's rounds take the answers of `getUpdates`
-- as a list; the loop itself does not end, and a theorem for all lists is one for all of its prefixes.
-- In the same way the accept loop of the pipe and the wait of the hook take a list of events: what the
-- system and the clients did, in that order. `Teloxide`, the HTTP answers and `Files` are what
-- tg-client stands on; `System` and the entries of the snapshot of processes are what Windows answers;
-- `Outside` is what surrounds a flow of the hook. `Host` is what a server reads as it starts:
-- arguments, environment, files, parsers and the database.
--
-- Fuel. `split_message` runs on one round for each byte of the text, and each round takes a byte at
-- least; the theorem that nothing is lost shows that this is enough. The walk up the processes has the
-- 32 rounds of the code, and the opening of the pipe its 10 attempts. No other definition has fuel.
--
-- Numbers. i64 values are integers, and what is read from a document or a text is checked to be in
-- range; the sum `update_id + 1` wraps around as i64 does. A rowid is a natural number, and a new row
-- takes the largest one in use plus one.
--
-- Not modelled: the building of URLs, the security descriptor of the pipe (security.rs) and the Win32
-- calls, which are raw pointers into Windows, the parser of the configuration file, the log file, the
-- sessions of the protocol on stdio and on the pipe. Texts of error messages, log lines, the
-- descriptions of the tools and the printing of a tool's answer are left out; the status lines of the
-- hook are kept, but for the error in the one on a failed poll. In the flows of the hook the server
-- answers a poll by its baseline and a message by its text: the chat and the limit of those calls, and
-- their way through the client, which McpClient models, are not joined to the flows.
pub mod Prelude
pub mod Json
pub mod History
pub mod TgClient
pub mod Updater
pub mod LocalPipe
pub mod Aliases
pub mod McpServer
pub mod TgHook
mod Tests
