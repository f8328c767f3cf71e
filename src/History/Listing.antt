-- ===== src/History/Listing.antt =====
-- `list_chats` and `search` of crates/history/src/store.rs.
pub mod Baselines
pub mod Made
pub mod Summarised
pub mod Unread
use Prim.Native.Char.{code}
use telegram_mcpvscode.Prelude.{
  String, ◌<>◌, ℤ, pos, Bool, true, ◌&&◌, Option, none, some, List, [], ◌∷◌, map, leb_ℤ, eqb_ℤ,
  ◌==◌, if◌then◌else◌,
}
use telegram_mcpvscode.Prelude.Text.{parse_i64}
use telegram_mcpvscode.Prelude.Lists.{filter_by, find_by}
use telegram_mcpvscode.Prelude.Order.{sort}
use telegram_mcpvscode.History.Types.{ChatInfo, ChatSummary, SearchHit}
use telegram_mcpvscode.History.Conn.{ChatRow, MessageRow, FtsEntry, Db, Action, pure, ◌>>=◌, query}
use telegram_mcpvscode.History.Sql.{max_message_id, count_unread, limit_rows}
use telegram_mcpvscode.History.Store.{chat_of_row}

abbrev pub seen_later : ChatRow → ChatRow → Bool
seen_later a b = leb_ℤ b.last_seen a.last_seen

-- `SELECT …, (SELECT MAX(message_id) …) FROM chats c ORDER BY c.last_seen DESC`
unfoldable pub select_chats : Db → List (ChatRow × Option ℤ)
unfolding sort max_message_id
select_chats db = map (λ r. (r, max_message_id r.chat_id db.messages)) (sort seen_later db.chats)

unfoldable pub strip_prefix : String → String → Option String
strip_prefix String.[] s = some s
strip_prefix (String.◌∷◌ c p) String.[] = none
strip_prefix (String.◌∷◌ c p) (String.◌∷◌ d s) = if code c == code d then strip_prefix p s else none

-- The newest entry for a chat stands first, as an insert into the `HashMap` replaces.
abbrev pub Baselines : Type 0
Baselines = List (ℤ × ℤ)

abbrev add_parsed : Option ℤ → Option ℤ → Baselines → Baselines
add_parsed none value bs = bs
add_parsed (some cid) none bs = bs
add_parsed (some cid) (some base) bs = (cid, base) ∷ bs

abbrev add_baseline : Option String → String → Baselines → Baselines
add_baseline none value bs = bs
add_baseline (some id_str) value bs = add_parsed (parse_i64 id_str) (parse_i64 value) bs

-- The loop over the rows of `kv`. Each key with the prefix is matched by the `LIKE` of the query.
unfoldable pub collect_baselines : List (String × String) → Baselines → Baselines
unfolding strip_prefix parse_i64
collect_baselines [] bs = bs
collect_baselines ((key, value) ∷ rows) bs =
    collect_baselines rows (add_baseline (strip_prefix "last_unread_baseline:" key) value bs)

abbrev baseline_value : Option (ℤ × ℤ) → ℤ
baseline_value none = pos 0
baseline_value (some (cid, base)) = base

-- `baselines.get(&chat_id).copied().unwrap_or(0)`
unfoldable pub baseline_of : ℤ → Baselines → ℤ
unfolding find_by
baseline_of chat_id bs = baseline_value (find_by (λ (cid, base). eqb_ℤ cid chat_id) bs)

unfoldable pub infos_of_rows : List (ChatRow × Option ℤ) → Action (List (ChatInfo × Option ℤ))
unfolding chat_of_row
infos_of_rows [] = pure []
infos_of_rows ((r, last) ∷ rs) = do
  info ← chat_of_row r
  rest ← infos_of_rows rs
  pure ((info, last) ∷ rest)

-- One `COUNT(*)` query for each chat.
unfoldable pub summaries : Baselines → List (ChatInfo × Option ℤ) → Action (List ChatSummary)
unfolding baseline_of count_unread
summaries bs [] = pure []
summaries bs ((info, last) ∷ rest) = do
  unread ← query (count_unread info.chat_id (baseline_of info.chat_id bs))
  more ← summaries bs rest
  pure (record { info = info; unread_count = pos unread; last_message_id = last } ∷ more)

unfoldable pub list_chats : Action (List ChatSummary)
unfolding select_chats infos_of_rows collect_baselines summaries
list_chats = do
  rows ← query select_chats
  chats ← infos_of_rows rows
  kv ← query (λ db. db.kv)
  summaries (collect_baselines kv []) chats

-- search

-- `fts_phrase_escape`: every double quote is written twice.
unfoldable pub double_quotes : String → String
double_quotes String.[] = String.[]
double_quotes (String.◌∷◌ c s) =
    let rest = double_quotes s in
    if code c == 34 then String.◌∷◌ c (String.◌∷◌ c rest) else String.◌∷◌ c rest

unfoldable pub fts_phrase_escape : String → String
unfolding double_quotes
fts_phrase_escape s = "\"" <> (double_quotes s <> "\"")

-- What SQLite's FTS5 decides of a query and an indexed text, and the snippet that it shows.
pub record Fts : Type 0 where
  pub matches : String → Option String → Bool
  pub snippet : String → Option String → String

abbrev pub optional : (ℤ → Bool) → Option ℤ → Bool
optional test none = true
optional test (some n) = test n

abbrev pub wanted : Option ℤ → Option ℤ → Option ℤ → MessageRow → Bool
wanted chat_id since until m =
    optional (λ c. eqb_ℤ m.chat_id c) chat_id
    && (optional (λ s. leb_ℤ s m.date) since && optional (λ u. leb_ℤ m.date u) until)

module _ (fts : Fts) where
  -- The entries that match, each joined with its row.
  unfoldable pub joined : String → List FtsEntry → Db → List (MessageRow × FtsEntry)
  unfolding find_by
  joined q [] db = []
  joined q (e ∷ es) db =
      let rest = joined q es db in
      if fts.matches q e.text
      then elim (find_by (λ (m : MessageRow). m.rowid == e.rowid) db.messages) [
        | none ↦ rest
        | some m ↦ (m, e) ∷ rest
      ]
      else rest

  abbrev hit_of : String → MessageRow × FtsEntry → SearchHit
  hit_of q (m, e) = record {
    chat_id = m.chat_id;
    message_id = m.message_id;
    date = m.date;
    snippet = fts.snippet q e.text;
  }

  abbrev dated_later : MessageRow × FtsEntry → MessageRow × FtsEntry → Bool
  dated_later (m, e) (n, f) = leb_ℤ n.date m.date

  unfoldable pub search : String → Option ℤ → Option ℤ → Option ℤ → Action (List SearchHit)
  unfolding joined filter_by sort limit_rows fts_phrase_escape
  search text chat_id since until =
      let q = fts_phrase_escape text in
      query (λ db. map (hit_of q) (
        limit_rows (pos 100) (
          sort dated_later
            (filter_by (λ (m, e). wanted chat_id since until m) (joined q db.fts db)))))
