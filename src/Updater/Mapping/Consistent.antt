-- ===== src/Updater/Mapping/Consistent.antt =====
-- What `map_update` makes of an update that carries a message.
use telegram_mcpvscode.Prelude.{ℤ, some, ◌≡◌, sym, ap, ◌∙◌, arith}
use telegram_mcpvscode.Prelude.Options.{◌>>=◌, bind-eq-some}
use mathlib.Core.Option.{some-injective}
use telegram_mcpvscode.Json.{Value, get, as_i64, as_str}
use telegram_mcpvscode.History.Types.{ChatInfo, StoredMessage, incoming, kind_from_sql}
use telegram_mcpvscode.Updater.Mapping.{map_update, chat_in, message_in}

chat_in_dates :
    (v : Value) (date : ℤ) {chat : ChatInfo}
    → chat_in v date ≡ some chat
    → (chat.first_seen ≡ date) × (chat.last_seen ≡ date)
unfolding chat_in
chat_in_dates v date {chat} h =
    let (chat_id, _, h1) = bind-eq-some (get v "id" >>= as_i64) _ h in
    let (type, _, h2) = bind-eq-some (get v "type" >>= as_str) _ h1 in
    let (kind, _, h3) = bind-eq-some (kind_from_sql type) _ h2 in ground arith

-- If an update maps to a chat and a message, the message is of the chat, the chat is first and last
-- seen at the date of the message, and the message is incoming and keeps the whole update.
pub map_update_lem :
    (update : Value) {chat : ChatInfo} {msg : StoredMessage}
    → map_update update ≡ some (chat, msg)
    → (msg.chat_id ≡ chat.chat_id)
      × (chat.first_seen ≡ msg.date)
      × (chat.last_seen ≡ msg.date)
      × (msg.direction ≡ incoming)
      × (msg.raw ≡ update)
unfolding map_update
map_update_lem update {chat} {msg} h =
    let (m, _, h1) = bind-eq-some (message_in update) _ h in
    let (v, _, h2) = bind-eq-some (get m "chat") _ h1 in
    let (message_id, _, h3) = bind-eq-some (get m "message_id" >>= as_i64) _ h2 in
    let (date, _, h4) = bind-eq-some (get m "date" >>= as_i64) _ h3 in
    let (info, h5, h6) = bind-eq-some (chat_in v date) _ h4 in
    let dates = chat_in_dates v date h5 in
    let pair = some-injective _ _ h6 in
    let same_chat = ap (λ (p : ChatInfo × StoredMessage). p.0) pair in
    let same_msg = ap (λ (p : ChatInfo × StoredMessage). p.1) pair in
    (
      sym (ap (λ (m : StoredMessage). m.chat_id) same_msg)
          ∙ ap (λ (c : ChatInfo). c.chat_id) same_chat,
      sym (ap (λ (c : ChatInfo). c.first_seen) same_chat)
          ∙ dates.0
          ∙ ap (λ (m : StoredMessage). m.date) same_msg,
      sym (ap (λ (c : ChatInfo). c.last_seen) same_chat)
          ∙ dates.1
          ∙ ap (λ (m : StoredMessage). m.date) same_msg,
      sym (ap (λ (m : StoredMessage). m.direction) same_msg),
      sym (ap (λ (m : StoredMessage). m.raw) same_msg),
    )
