-- ===== src/History/Store/Rows.antt =====
-- The `kv` and `chats` tables after a write.
use telegram_mcpvscode.Prelude.{
  String, ℤ, true, false, Option, none, some, List, [], ◌∷◌, ◌++◌, ◌≡◌, arith, eqb_ℤ_iff, eq_iff,
  str_eq, Bool-cases, if◌then◌else◌, inl, inr,
}
use telegram_mcpvscode.Prelude.Int.{eqb_ℤ_refl}
use telegram_mcpvscode.Prelude.Lists.{find_by, any_by, update_first}
use telegram_mcpvscode.History.Types.{ChatInfo, kind_from_sql-kind_as_sql}
use telegram_mcpvscode.History.Conn.{ChatRow, Db, ok, statement}
use telegram_mcpvscode.History.Sql.{
  chat_is, new_chat, updated_chat, upsert_chat_row, find_chat, upsert_kv, select_kv, key_is,
  value_of,
}
use telegram_mcpvscode.History.Store.{upsert_chat, kv_put, kv_get, get_chat}
use telegram_mcpvscode.History.Store.Reading.{no_faults}

abbrev set_value : String → String × String → String × String
set_value value (k, v) = (k, value)

updated_value :
    (key j value : String) (rows : List (String × String))
    → any_by (key_is key) rows ≡ true
    → value_of (find_by (key_is j) (update_first (key_is key) (set_value value) rows))
      ≡ (if str_eq key j then some value else value_of (find_by (key_is j) rows))
unfolding find_by any_by update_first
updated_value key j value [] h = cc
updated_value key j value ((k, v) ∷ rows) h =
    ground (arith, updated_value key j value rows, eq_iff k key, eq_iff k j, eq_iff key j)

appended_value :
    (key j value : String) (rows : List (String × String))
    → any_by (key_is key) rows ≡ false
    → value_of (find_by (key_is j) (rows ++ ((key, value) ∷ [])))
      ≡ (if str_eq key j then some value else value_of (find_by (key_is j) rows))
unfolding find_by any_by
appended_value key j value [] h = ground arith
appended_value key j value ((k, v) ∷ rows) h =
    ground (arith, appended_value key j value rows, eq_iff k key, eq_iff k j, eq_iff key j)

-- A value that is put is what its key gives, and other keys give what they gave.
pub select_kv-upsert_kv :
    (key j value : String) (db : Db)
    → select_kv j (upsert_kv key value db) ≡ (if str_eq key j then some value else select_kv j db)
unfolding select_kv upsert_kv
select_kv-upsert_kv key j value db = elim (Bool-cases (any_by (key_is key) db.kv)) [
  | inl e ↦ rw e (updated_value key j value db.kv e)
  | inr e ↦ rw e (appended_value key j value db.kv e)
]

-- When no statement fails, `kv_get` after `kv_put` gives the value for its key, and for another key
-- what that had.
kv_get-kv_put :
    (key j value : String) (db : Db)
    → (kv_get j (kv_put key value (no_faults db)).1).0
      ≡ ok (if str_eq key j then some value else select_kv j db)
unfolding kv_get kv_put statement
kv_get-kv_put key j value db = rw select_kv-upsert_kv

-- chats

abbrev first_seen_of : ChatInfo → Option ChatRow → ℤ
first_seen_of c none = c.first_seen
first_seen_of c (some r) = r.first_seen

abbrev pub seen_since : ChatInfo → Option ChatRow → ChatInfo
seen_since c o = record c { first_seen = first_seen_of c o }

updated_row :
    (c : ChatInfo) (rows : List ChatRow)
    → any_by (chat_is c.chat_id) rows ≡ true
    → find_by (chat_is c.chat_id) (update_first (chat_is c.chat_id) (updated_chat c) rows)
      ≡ some (new_chat (seen_since c (find_by (chat_is c.chat_id) rows)))
unfolding find_by any_by update_first
updated_row c [] h = cc
updated_row c (r ∷ rows) h = elim (Bool-cases (chat_is c.chat_id r)) [
  | inl e ↦
      let same : r.chat_id ≡ c.chat_id = (eqb_ℤ_iff r.chat_id c.chat_id).0 e in rw (e, e, same)
  | inr e ↦ rw (e, e) (updated_row c rows (rw e at h))
]

appended_row :
    (c : ChatInfo) (rows : List ChatRow)
    → any_by (chat_is c.chat_id) rows ≡ false
    → find_by (chat_is c.chat_id) (rows ++ (new_chat c ∷ []))
      ≡ some (new_chat (seen_since c (find_by (chat_is c.chat_id) rows)))
unfolding find_by any_by
appended_row c [] h = rw (eqb_ℤ_refl c.chat_id)
appended_row c (r ∷ rows) h = elim (Bool-cases (chat_is c.chat_id r)) [
  | inl e ↦ cc (rw e at h)
  | inr e ↦ rw e (appended_row c rows (rw e at h))
]

find_chat-upsert_chat_row :
    (c : ChatInfo) (db : Db)
    → find_chat c.chat_id (upsert_chat_row c db)
      ≡ some (new_chat (seen_since c (find_chat c.chat_id db)))
unfolding find_chat upsert_chat_row
find_chat-upsert_chat_row c db = elim (Bool-cases (any_by (chat_is c.chat_id) db.chats)) [
  | inl e ↦ rw e (updated_row c db.chats e)
  | inr e ↦ rw e (appended_row c db.chats e)
]

-- When no statement fails, a chat that is upserted reads back with the new kind, title, user name
-- and `last_seen`, and with the `first_seen` of the row that was there, or its own if there was
-- none.
pub get_chat-upsert_chat :
    (c : ChatInfo) (db : Db)
    → (get_chat c.chat_id (upsert_chat c (no_faults db)).1).0
      ≡ ok (some (seen_since c (find_chat c.chat_id db)))
unfolding get_chat upsert_chat statement
get_chat-upsert_chat c db = rw (find_chat-upsert_chat_row c db, kind_from_sql-kind_as_sql c.kind)
