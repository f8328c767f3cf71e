-- ===== src/Tests/Upkeep.antt =====
-- The theorems on the migrations and the retention task at concrete inputs.
use telegram_mcpvscode.Prelude.{pos, true, false, none, some, [], ◌∷◌, ◌≡◌, refl, arith}
use telegram_mcpvscode.Prelude.Int.{◌-ℤ◌}
use telegram_mcpvscode.Prelude.Lists.{filter_by}
use telegram_mcpvscode.History.Conn.{Conn}
use telegram_mcpvscode.History.Schema.{migrate}
use telegram_mcpvscode.History.Schema.Migrating.{Migrated, migrate-Migrated}
use telegram_mcpvscode.McpServer.Config.{RetentionConfig}
use telegram_mcpvscode.McpServer.Retention.{run_retention}
use telegram_mcpvscode.McpServer.Retention.Spared.{since, run_retention_spares}
use telegram_mcpvscode.Tests.Data.{two_messages}

migrate-Migrated_example :
    Migrated none (migrate (record { tables = none; faults = false ∷ false ∷ false ∷ [] }))
migrate-Migrated_example = migrate-Migrated none (false ∷ false ∷ false ∷ [])

abbrev two_days : RetentionConfig
two_days = record { max_age_days = some 2; max_messages_per_chat = none }

-- The second statement of the first tick fails.
abbrev kept_so_far : Conn
kept_so_far = record { db = two_messages; faults = false ∷ true ∷ [] }

run_retention_spares_example :
    filter_by
      (since (pos 172900 -ℤ pos 172800))
      (run_retention two_days (172850 ∷ 172900 ∷ []) kept_so_far).db.messages
    ≡ filter_by (since (pos 172900 -ℤ pos 172800)) kept_so_far.db.messages
run_retention_spares_example =
    run_retention_spares two_days 2 172900 (172850 ∷ 172900 ∷ []) kept_so_far refl refl
      (omega arith) (omega arith) (omega arith, (omega arith, tt))
