-- ===== src/Updater/Polling.antt =====
-- crates/tg-updater/src/polling.rs: the loop over `getUpdates`. The answers of the Bot API are the
-- input of each round; the delay that a round sleeps is a part of its result.
pub mod Offset
pub mod Access
pub mod Backoff
use telegram_mcpvscode.Prelude.{
  String, ℕ, ◌*◌, min, ℤ, pos, Bool, true, false, Option, none, some, List, [], ◌∷◌, eqb_ℤ,
  if◌then◌else◌,
}
use telegram_mcpvscode.Prelude.Lists.{any_by}
use telegram_mcpvscode.Prelude.Int.{succ_i64}
use telegram_mcpvscode.Prelude.Order.{max_ℤ}
use telegram_mcpvscode.Prelude.Options.{◌>>=◌, unwrap_or}
use telegram_mcpvscode.Prelude.Text.{show_ℤ, parse_i64}
use telegram_mcpvscode.Json.{Value, get, as_i64}
use telegram_mcpvscode.Json.Serde.{Serde}
use telegram_mcpvscode.TgClient.Types.{TgClientError, rate_limited, Reply, answered, refused}
use telegram_mcpvscode.History.Types.{ChatInfo, StoredMessage, HistoryError}
use telegram_mcpvscode.History.Conn.{Conn, Result, ok, err}
use telegram_mcpvscode.History.Store.{record_inbound, kv_put, kv_get}
use telegram_mcpvscode.Updater.Mapping.{map_update}

pub record Poller : Type 0 where
  pub conn : Conn
  pub offset : ℤ
  pub backoff : ℕ

-- `s.parse().ok()`, and 0 where nothing is stored.
abbrev pub offset_of : Option String → ℤ
offset_of stored = unwrap_or (pos 0) (stored >>= parse_i64)

abbrev started : Result (Option String) × Conn → Result Poller × Conn
started (ok stored, c) = (ok (record { conn = c; offset = offset_of stored; backoff = 1 }), c)
started (err e, c) = (err e, c)

-- Up to the loop: the only error that ends `run`.
unfoldable pub start : Conn → Result Poller × Conn
start c = started (kv_get "update_offset" c)

abbrev pub update_id : Value → Option ℤ
update_id u = get u "update_id" >>= as_i64

abbrev pub later_id : Option ℤ → Option ℤ → Option ℤ
later_id highest none = highest
later_id none (some i) = some i
later_id (some m) (some i) = some (max_ℤ m i)

-- The highest `update_id` of a batch.
unfoldable pub max_update_id : Option ℤ → List Value → Option ℤ
unfolding get as_i64 max_ℤ
max_update_id highest [] = highest
max_update_id highest (u ∷ us) = max_update_id (later_id highest (update_id u)) us

abbrev pub is_allowed : Option (List ℤ) → ℤ → Bool
is_allowed none chat_id = true
is_allowed (some chats) chat_id = any_by (λ c. eqb_ℤ c chat_id) chats

module _ (serde : Serde) (allowed : Option (List ℤ)) where
  -- An error of the store is logged, and the loop goes on.
  abbrev keep : Option (ChatInfo × StoredMessage) → Conn → Conn
  keep none c = c
  keep (some (chat, msg)) c =
      if is_allowed allowed chat.chat_id then (record_inbound serde chat msg c).1 else c

  unfoldable pub record_update : Value → Conn → Conn
  unfolding any_by
  record_update u c = keep (map_update u) c

  unfoldable pub record_updates : List Value → Conn → Conn
  unfolding record_update
  record_updates [] c = c
  record_updates (u ∷ us) c = record_updates us (record_update u c)

  abbrev persisted : Poller → ℤ → Result (Unit {0}) × Conn → Poller
  persisted p next (ok _, c) = record p { conn = c; offset = next }
  persisted p next (err e, c) = record p { conn = c }

  abbrev pub advance : Option ℤ → Poller → Poller
  advance none p = p
  advance (some m) p =
      let next = succ_i64 m in persisted p next (kv_put "update_offset" (show_ℤ next) p.conn)

  abbrev pub twice_up_to_30 : ℕ → ℕ
  twice_up_to_30 backoff = min (backoff * 2) 30

  abbrev pub on_error : TgClientError → Poller → Poller × ℕ
  on_error (rate_limited retry_after_secs) p = (p, retry_after_secs)
  on_error _ p = (record p { backoff = twice_up_to_30 p.backoff }, p.backoff)

  -- One round of the loop: the state after it, and the seconds that it slept.
  unfoldable pub round : Reply (List Value) → Poller → Poller × ℕ
  unfolding record_updates max_update_id
  round (answered updates) p = (
    advance (max_update_id none updates)
        (record p { conn = record_updates updates p.conn; backoff = 1 }),
    0,
  )
  round (refused e) p = on_error e p

  -- The state after a sequence of answers.
  unfoldable pub rounds : List (Reply (List Value)) → Poller → Poller
  unfolding round
  rounds [] p = p
  rounds (r ∷ rs) p = rounds rs (round r p).0
