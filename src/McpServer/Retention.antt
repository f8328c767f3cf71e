-- ===== src/McpServer/Retention.antt =====
-- The retention task of crates/mcp-server/src/main.rs. A tick has the time in seconds; arithmetic on
-- i64 wraps around, as in a release build.
pub mod Spared
use telegram_mcpvscode.Prelude.{
  String, ℕ, ◌*◌, ℤ, pos, Option, none, some, List, [], ◌∷◌, str_eq, if◌then◌else◌,
}
use telegram_mcpvscode.Prelude.Int.{◌-ℤ◌, ◌*ℤ◌}
use telegram_mcpvscode.Prelude.Word.{wrap_i64}
use telegram_mcpvscode.History.Conn.{Conn}
use telegram_mcpvscode.History.Store.{enforce_retention}
use telegram_mcpvscode.McpServer.Config.{RetentionConfig}

abbrev pub secs_per_day : ℕ
secs_per_day = 86400

-- `now - days as i64 * SECS_PER_DAY`
unfoldable pub cutoff_at : ℕ → ℕ → ℤ
cutoff_at now days =
    wrap_i64 (wrap_i64 (pos now) -ℤ wrap_i64 (wrap_i64 (pos days) *ℤ pos secs_per_day))

abbrev pub cutoff_of : RetentionConfig → ℕ → Option ℤ
cutoff_of cfg now = elim cfg.max_age_days [ none ↦ none | some days ↦ some (cutoff_at now days) ]

-- A run that fails is logged, and the next tick goes on.
unfoldable pub retention_tick : RetentionConfig → ℕ → Conn → Conn
unfolding enforce_retention cutoff_at
retention_tick cfg now c = (enforce_retention (cutoff_of cfg now) cfg.max_messages_per_chat c).1

unfoldable pub run_retention : RetentionConfig → List ℕ → Conn → Conn
unfolding retention_tick
run_retention cfg [] c = c
run_retention cfg (now ∷ ticks) c = run_retention cfg ticks (retention_tick cfg now c)

-- The command line of the server: the path of the configuration, if it is given; the usage, which
-- ends the process; or an error.
pub data Cli : Type 0 where
  config : Option String → Cli
  usage needs_path : Cli
  unknown : String → Cli

unfoldable pub parse_args : List String → Option String → Cli
parse_args [] cfg = config cfg
parse_args (a ∷ []) cfg =
    if str_eq a "--config"
    then needs_path
    else if str_eq a "--help"
    then usage
    else if str_eq a "-h"
    then usage
    else unknown a
parse_args (a ∷ v ∷ rest) cfg =
    let further = parse_args rest (some v) in
    if str_eq a "--config"
    then further
    else if str_eq a "--help"
    then usage
    else if str_eq a "-h"
    then usage
    else unknown a

abbrev arguments : List String → List String
arguments [] = []
arguments (program ∷ args) = args

unfoldable pub parse_cli : List String → Cli
unfolding parse_args
parse_cli argv = parse_args (arguments argv) none
