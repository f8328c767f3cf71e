-- ===== src/Tests/Polling.antt =====
-- The theorems on the updater at concrete answers of the Bot API.
use telegram_mcpvscode.Prelude.{
  ◌^◌, ◌*◌, pos, none, some, List, [], ◌∷◌, ◌≡◌, refl, arith, map, min,
}
use telegram_mcpvscode.Prelude.Lists.{count_by, any_by, find_by}
use telegram_mcpvscode.Json.{Value}
use telegram_mcpvscode.TgClient.Types.{http, teloxide, rate_limited, Reply, answered, refused}
use telegram_mcpvscode.History.Conn.{ok, statement}
use telegram_mcpvscode.History.Sql.{find_message, select_kv}
use telegram_mcpvscode.History.Store.{kv_get}
use telegram_mcpvscode.History.Store.Index.{IsSynced}
use telegram_mcpvscode.History.Store.Keys.{IsKeyed}
use telegram_mcpvscode.History.Store.Reading.{no_faults}
use telegram_mcpvscode.Updater.Polling.{Poller, start, rounds}
use telegram_mcpvscode.Updater.Polling.Offset.{restart_resumes}
use telegram_mcpvscode.Updater.Polling.Backoff.{backoff_after_errors}
use telegram_mcpvscode.Updater.Polling.Access.{disallowed_untouched, rounds-IsSynced}
use telegram_mcpvscode.Tests.Data.{few_documents, delivery, one_message, empty}

abbrev fresh : Poller
fresh = record { conn = no_faults empty; offset = pos 0; backoff = 1 }

abbrev stocked : Poller
stocked = record { conn = no_faults one_message; offset = pos 0; backoff = 1 }

-- A batch, a rate limit, and an error of the network.
abbrev answers : List (Reply (List Value))
answers = answered (delivery ∷ []) ∷ refused (rate_limited 3) ∷ refused http ∷ []

restart_resumes_example :
    let q = rounds few_documents none answers fresh in
    (start (no_faults q.conn.db)).0
    ≡ ok (record { conn = no_faults q.conn.db; offset = q.offset; backoff = 1 })
unfolding start kv_get statement select_kv find_by
restart_resumes_example =
    restart_resumes few_documents none (no_faults empty) answers {p = fresh} refl

disallowed_untouched_example :
    find_message (pos 5) (pos 1) (rounds few_documents (some (pos 9 ∷ [])) answers stocked).conn.db
    ≡ find_message (pos 5) (pos 1) one_message
unfolding any_by
disallowed_untouched_example =
    disallowed_untouched few_documents (pos 9 ∷ []) answers stocked (pos 5) (pos 1) refl

one_message-IsSynced : IsSynced one_message
unfolding count_by
one_message-IsSynced rowid text = refl

one_message-IsKeyed : IsKeyed one_message.messages
unfolding count_by
one_message-IsKeyed c n = ground arith

rounds-IsSynced_example :
    IsSynced (rounds few_documents none answers stocked).conn.db
    × IsKeyed (rounds few_documents none answers stocked).conn.db.messages
rounds-IsSynced_example =
    rounds-IsSynced few_documents none answers stocked one_message-IsSynced one_message-IsKeyed

backoff_after_errors_example :
    rounds few_documents none (map refused (http ∷ teloxide ∷ http ∷ [])) fresh
    ≡ record fresh { backoff = min (1 * 2 ^ 3) 30 }
backoff_after_errors_example =
    backoff_after_errors few_documents none (http ∷ teloxide ∷ http ∷ []) fresh (omega arith)
      (refl, (refl, (refl, tt)))
