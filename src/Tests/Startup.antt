-- ===== src/Tests/Startup.antt =====
-- The theorems on the start of a server, its discovery record and its tools at concrete inputs.
use telegram_mcpvscode.Prelude.{String, pos, true, false, Option, none, some, [], ◌∷◌, refl, arith}
use telegram_mcpvscode.Json.{Value}
use telegram_mcpvscode.LocalPipe.Server.{create_failed}
use telegram_mcpvscode.LocalPipe.Civil.{epoch_to_civil}
use telegram_mcpvscode.LocalPipe.Civil.Dated.{IsTime, epoch_to_civil-IsTime}
use telegram_mcpvscode.LocalPipe.Discovery.{
  DiscoveryRecord, file_name, Startup, record_of, written, serve,
}
use telegram_mcpvscode.LocalPipe.Discovery.Lifetime.{IsTidy, serve-IsTidy}
use telegram_mcpvscode.TgHook.Discovery.Reached.{IsReached, listening-IsReached}
use telegram_mcpvscode.History.Schema.Migrating.{first_tables}
use telegram_mcpvscode.McpServer.Config
use telegram_mcpvscode.McpServer.Config.{Config, env_not_set, validate, default_updater}
use telegram_mcpvscode.McpServer.FilePaths.{normal}
use telegram_mcpvscode.McpServer.Registry.{InputType, bot_whoami_input, Input, list_tools, handle}
use telegram_mcpvscode.McpServer.Registry.Served.{IsHandled, shown_type, handle-IsHandled}
use telegram_mcpvscode.McpServer.Startup.{Host, Running, rejected, start, main}
use telegram_mcpvscode.McpServer.Startup.Errors.{IsHostFault, start-IsHostFault}
use telegram_mcpvscode.McpServer.Startup.Guarded.{IsLoaded, IsGuarded, main-IsGuarded}
use telegram_mcpvscode.Tests.Data.{few_documents}
use telegram_mcpvscode.Tests.Server.{polite_bot, team_only, no_matches}

epoch_to_civil-IsTime_example : IsTime 1582934400 (epoch_to_civil (pos 1582934400))
epoch_to_civil-IsTime_example = epoch_to_civil-IsTime 1582934400 (omega arith)

abbrev process : Startup
process = record { pid = 500; ppid = 200; token = "ab"; session_id = some "s"; now = some 0 }

-- The text of a record, and how it reads.
abbrev print : DiscoveryRecord → Option String
print r = some "{}"

abbrev read : String → Option DiscoveryRecord
read text = some (record_of process)

serve-IsTidy_example :
    IsTidy written true
      (file_name 500)
      (some "{}")
      (("9.json", "old") ∷ [])
      (serve print written true true process (create_failed ∷ []) (("9.json", "old") ∷ []))
serve-IsTidy_example =
    serve-IsTidy print true true written process (create_failed ∷ []) (("9.json", "old") ∷ [])

listening-IsReached_example : IsReached print read (λ pid. true) process "s" []
listening-IsReached_example =
    listening-IsReached print read (λ pid. true) process "s" "{}" [] refl refl refl refl tt
      ((omega arith, omega arith), ((omega arith, omega arith), tt)) (omega arith)

-- A decoder that takes the arguments of one tool only.
abbrev decode : (t : InputType) → Value → Option (Input t)
decode bot_whoami_input v = some tt
decode t v = none

handle-IsHandled_example :
    IsHandled decode none few_documents no_matches false team_only "tg_bot_whoami"
      (shown_type "tg_bot_whoami" list_tools)
      (handle decode few_documents no_matches false team_only "tg_bot_whoami" none)
handle-IsHandled_example =
    handle-IsHandled decode none few_documents no_matches false team_only "tg_bot_whoami"

abbrev small_config : Config
small_config = record {
  bot = record { token = some "t"; token_env = none; api_base_url = none };
  storage_path = "history.db";
  storage_parent = none;
  updater = default_updater;
  retention = record { max_age_days = none; max_messages_per_chat = none };
  aliases = ("team", pos 5) ∷ [];
  access = record {
    allowed_chats = Config.name "team" ∷ [];
    allowed_send_targets = Config.id (pos 5) ∷ [];
    file_root = none;
  };
}

abbrev host : Host
host = record {
  argv = "TelegramMCP" ∷ "--config" ∷ "c.toml" ∷ [];
  env = λ key. none;
  read_to_string = λ path. some "text";
  from_toml = λ text. some small_config;
  exists = λ path. true;
  parse_url = λ url. some url;
  builds_http_client = true;
  database = λ path. some (record { tables = none; faults = [] });
  path_of = λ path. record { prefix = none; rooted = false; parts = normal path ∷ [] };
  bot_of = λ client. polite_bot;
}

abbrev unset_token : Config
unset_token = record small_config {
  bot = record { token = none; token_env = some "TOKEN"; api_base_url = none };
}

start-IsHostFault_example : IsHostFault host unset_token (rejected (env_not_set "TOKEN"))
unfolding validate start
start-IsHostFault_example =
    start-IsHostFault host unset_token (rejected (env_not_set "TOKEN")) refl refl

abbrev served : Running
served = record {
  state = record {
    bot = polite_bot;
    aliases = record { entries = ("team", pos 5) ∷ [] };
    allowed_send_targets = some (pos 5 ∷ []);
    file_root = none;
  };
  store = record { db = first_tables; faults = [] };
  retention = none;
  updater = some (record {
    poll_timeout_secs = 30;
    allowed_update_kinds =
        "message" ∷ "edited_message" ∷ "channel_post" ∷ "edited_channel_post" ∷ [];
    allowed_chats = some (pos 5 ∷ []);
  });
}

main-IsGuarded_example : (cfg : Config) × IsLoaded host cfg × IsGuarded cfg served
unfolding main
main-IsGuarded_example = main-IsGuarded host served refl
