-- ===== src/McpServer/Startup.antt =====
-- The start of the server: `Config::load` of crates/mcp-server/src/config.rs, `TgClient::new` of
-- crates/tg-client/src/client.rs, `History::open` and `main` of crates/mcp-server/src/main.rs, up to
-- the point where it serves. What the process reads is a parameter: its arguments and environment,
-- the files, the parsers of TOML and of URLs, the HTTP client and the database file.
pub mod Errors
pub mod Guarded
use telegram_mcpvscode.Prelude.{
  String, ℕ, ℤ, Bool, true, false, ◌||◌, Option, none, some, List, if◌then◌else◌,
}
use telegram_mcpvscode.Prelude.Options.{is_some, unwrap_or}
use telegram_mcpvscode.History.Types.{HistoryError, sqlite}
use telegram_mcpvscode.History.Conn.{Conn}
use telegram_mcpvscode.History.Conn
use telegram_mcpvscode.History.Schema.{File, no_rows, migrate}
use telegram_mcpvscode.McpServer.Config.{
  Config, ConfigError, RetentionConfig, Checked, validate, resolved_token, allow_list,
}
use telegram_mcpvscode.McpServer.Config
use telegram_mcpvscode.McpServer.FilePaths.{FilePath}
use telegram_mcpvscode.McpServer.Retention.{Cli, usage, config, needs_path, unknown, parse_cli}
use telegram_mcpvscode.McpServer.Tools.{State}
use telegram_mcpvscode.McpServer.Wire.{Bot}

pub data StartError : Type 0 where
  bad_arguments config_path_required unreadable malformed invalid_url no_http_client : StartError
  rejected : ConfigError → StartError
  no_history : HistoryError → StartError

pub data Start (A : Type 0) : Type 0 where
  ok : A → Start A
  err : StartError → Start A

infixl 5 ◌>>=◌
abbrev pub ◌>>=◌ : {A B : Type 0} → Start A → (A → Start B) → Start B
ok a >>= f = f a
err e >>= f = err e

abbrev pub or_fail : {A : Type 0} → StartError → Option A → Start A
or_fail e none = err e
or_fail e (some a) = ok a

abbrev pub checked : {A : Type 0} → Checked A → Start A
checked (Config.ok a) = ok a
checked (Config.err e) = err (rejected e)

pub record Client : Type 0 where
  pub token : String
  pub api_base : String

pub record Host : Type 0 where
  pub argv : List String
  pub env : String → Option String
  pub read_to_string : String → Option String
  pub from_toml : String → Option Config
  pub exists : String → Bool
  pub parse_url : String → Option String
  pub builds_http_client : Bool
  pub database : String → Option File
  pub path_of : String → FilePath
  pub bot_of : Client → Bot

pub record UpdaterConfig : Type 0 where
  pub poll_timeout_secs : ℕ
  pub allowed_update_kinds : List String
  pub allowed_chats : Option (List ℤ)

-- What runs in the end: the tools over the state and the history, and the two background tasks, if
-- they were spawned.
pub record Running : Type 0 where
  pub state : State
  pub store : Conn
  pub retention : Option RetentionConfig
  pub updater : Option UpdaterConfig

pub data Exit : Type 0 where
  printed_usage : Exit
  failed : StartError → Exit
  running : Running → Exit

-- `TgClient::new`
unfoldable pub client_new : Bool → String → Option String → Start Client
client_new builds token api_base =
    if builds
    then ok (record { token = token; api_base = unwrap_or "https://api.telegram.org" api_base })
    else err no_http_client

abbrev pub opened : Conn.Result ℕ × File → Start Conn
opened (Conn.ok version, f) = ok (record { db = unwrap_or no_rows f.tables; faults = f.faults })
opened (Conn.err e, f) = err (no_history e)

-- `History::open`: the file is opened, and migrated.
abbrev pub open_file : Option File → Start Conn
open_file none = err (no_history sqlite)
open_file (some f) = opened (migrate f)

module _ (h : Host) where
  unfoldable pub load : String → Start Config
  unfolding validate
  load path = do
    raw ← or_fail unreadable (h.read_to_string path)
    cfg ← or_fail malformed (h.from_toml raw)
    checked (validate h.exists cfg) >>= λ _. ok cfg

  abbrev pub api_base_of : Option String → Start (Option String)
  api_base_of none = ok none
  api_base_of (some url) = or_fail invalid_url (h.parse_url url) >>= λ u. ok (some u)

  unfoldable pub open_history : String → Start Conn
  unfolding migrate
  open_history path = open_file (h.database path)

  -- A task is spawned if a limit is configured.
  abbrev pub retention_of : RetentionConfig → Option RetentionConfig
  retention_of cfg =
      if is_some cfg.max_age_days || is_some cfg.max_messages_per_chat then some cfg else none

  abbrev pub updater_of : Config → Start (Option UpdaterConfig)
  updater_of cfg =
      let chats = checked (allow_list cfg.aliases cfg.access.allowed_chats) in
      if cfg.updater.enabled
      then (chats >>= λ allowed_chats. ok (
          some (record {
            poll_timeout_secs = cfg.updater.poll_timeout_secs;
            allowed_update_kinds = cfg.updater.allowed_update_kinds;
            allowed_chats = allowed_chats;
          })))
      else ok none

  abbrev pub file_root_of : Option String → Option FilePath
  file_root_of none = none
  file_root_of (some root) = some (h.path_of root)

  -- From the configuration on.
  unfoldable pub start : Config → Start Running
  unfolding resolved_token client_new open_history allow_list
  start cfg = do
    token ← checked (resolved_token h.env cfg)
    api_base ← api_base_of cfg.bot.api_base_url
    client ← client_new h.builds_http_client token api_base
    store ← open_history cfg.storage_path
    allowed_send_targets ← checked (allow_list cfg.aliases cfg.access.allowed_send_targets)
    updater ← updater_of cfg
    ok (record {
      state = record {
        bot = h.bot_of client;
        aliases = record { entries = cfg.aliases };
        allowed_send_targets = allowed_send_targets;
        file_root = file_root_of cfg.access.file_root;
      };
      store = store;
      retention = retention_of cfg.retention;
      updater = updater;
    })

  abbrev pub exit_of : Start Running → Exit
  exit_of (ok r) = running r
  exit_of (err e) = failed e

  abbrev pub run : Cli → Exit
  run usage = printed_usage
  run needs_path = failed bad_arguments
  run (unknown argument) = failed bad_arguments
  run (config none) = failed config_path_required
  run (config (some path)) = exit_of (load path >>= start)

  unfoldable pub main : Exit
  unfolding parse_cli load start
  main = run (parse_cli h.argv)
