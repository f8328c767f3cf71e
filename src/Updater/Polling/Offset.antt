-- ===== src/Updater/Polling/Offset.antt =====
-- The offset of the loop and the stored one, and the delay after errors.
use telegram_mcpvscode.Prelude.{
  ℤ, Bool, true, false, Option, none, some, List, [], ◌∷◌, ◌≡◌, refl, ◌∙◌, inl, inr, arith,
  Bool-cases, Option-cases,
}
use telegram_mcpvscode.Prelude.Int.{InI64, succ_i64}
use telegram_mcpvscode.Prelude.Order.{max_ℤ}
use telegram_mcpvscode.Prelude.Text.{show_ℤ, parse_i64-show_ℤ}
use telegram_mcpvscode.Prelude.Options.{bind-eq-some}
use telegram_mcpvscode.Json.{Value, get, as_i64}
use telegram_mcpvscode.Json.Serde.{Serde}
use telegram_mcpvscode.TgClient.Types.{rate_limited, Reply, answered, refused}
use telegram_mcpvscode.History.Types.{ChatInfo, StoredMessage}
use telegram_mcpvscode.History.Conn.{Db, Conn, ok, statement}
use telegram_mcpvscode.History.Sql.{select_kv, upsert_kv}
use telegram_mcpvscode.History.Store.{kv_put, kv_get}
use telegram_mcpvscode.History.Store.Reading.{no_faults}
use telegram_mcpvscode.History.Store.Rows.{select_kv-upsert_kv}
use telegram_mcpvscode.History.Store.Synced.{kv-record_inbound}
use telegram_mcpvscode.Updater.Mapping.{map_update}
use telegram_mcpvscode.Updater.Polling.{
  Poller, offset_of, start, update_id, later_id, max_update_id, is_allowed, keep, record_update,
  record_updates, advance, round, rounds,
}

succ_i64-InI64 : (n : ℤ) → InI64 n → InI64 (succ_i64 n)
unfolding succ_i64
succ_i64-InI64 n h = ground arith

abbrev AllInI64 : Option ℤ → Type 0
AllInI64 none = Unit
AllInI64 (some n) = InI64 n

as_i64-InI64 : (v : Value) {n : ℤ} → as_i64 v ≡ some n → InI64 n
unfolding as_i64
as_i64-InI64 (Value.num k) {n} h = ground arith
as_i64-InI64 v {n} h = cc

later_id-InI64 : (a b : Option ℤ) → AllInI64 a → AllInI64 b → AllInI64 (later_id a b)
unfolding max_ℤ
later_id-InI64 a none ha hb = ha
later_id-InI64 none (some i) ha hb = hb
later_id-InI64 (some m) (some i) ha hb = ground arith

update_id-InI64 : (u : Value) → AllInI64 (update_id u)
update_id-InI64 u = elim (Option-cases (update_id u)) [
  | inl e ↦ rw e tt
  | inr (i, e) ↦
      let (v, _, h) = bind-eq-some (get u "update_id") as_i64 e in rw e (as_i64-InI64 v h)
]

max_update_id-InI64 :
    (highest : Option ℤ) (us : List Value) → AllInI64 highest → AllInI64 (max_update_id highest us)
unfolding max_update_id
max_update_id-InI64 highest [] h = h
max_update_id-InI64 highest (u ∷ us) h =
    max_update_id-InI64 (later_id highest (update_id u)) us
      (later_id-InI64 highest (update_id u) h (update_id-InI64 u))

abbrev pub stored_offset : Db → ℤ
stored_offset db = offset_of (select_kv "update_offset" db)

-- A restart would begin at the offset that the loop has now.
abbrev pub IsResumable : Poller → Type 0
IsResumable p = stored_offset p.conn.db ≡ p.offset

module _ (serde : Serde) (allowed : Option (List ℤ)) where
  kv-keep :
      (o : Option (ChatInfo × StoredMessage)) (c : Conn) → (keep serde allowed o c).db.kv ≡ c.db.kv
  kv-keep none c = refl
  kv-keep (some (chat, msg)) c = elim (Bool-cases (is_allowed allowed chat.chat_id)) [
    | inl e ↦ rw e (kv-record_inbound serde msg chat c)
    | inr e ↦ rw e
  ]

  kv-record_updates :
      (us : List Value) (c : Conn) → (record_updates serde allowed us c).db.kv ≡ c.db.kv
  unfolding record_updates
  kv-record_updates [] c = refl
  kv-record_updates (u ∷ us) c =
      kv-record_updates us (record_update serde allowed u c) ∙ kv-keep (map_update u) c

  stored_offset-record_updates :
      (us : List Value) (c : Conn)
      → stored_offset (record_updates serde allowed us c).db ≡ stored_offset c.db
  unfolding select_kv
  stored_offset-record_updates us c = rw (kv-record_updates us c)

offset_of-show_ℤ : (n : ℤ) → InI64 n → offset_of (some (show_ℤ n)) ≡ n
offset_of-show_ℤ n h = rw (parse_i64-show_ℤ n h)

stored_offset-upsert_kv :
    (n : ℤ) (db : Db) → InI64 n → stored_offset (upsert_kv "update_offset" (show_ℤ n) db) ≡ n
stored_offset-upsert_kv n db h =
    rw (select_kv-upsert_kv "update_offset" "update_offset" (show_ℤ n) db) (offset_of-show_ℤ n h)

advance-IsResumable :
    (serde : Serde) (allowed : Option (List ℤ)) (m : Option ℤ) (p : Poller)
    → AllInI64 m
    → IsResumable p
    → IsResumable (advance serde allowed m p)
unfolding kv_put statement
advance-IsResumable serde allowed none p h r = r
advance-IsResumable serde allowed (some m) p h r = go p.conn.faults
  where
    go :
        (faults : List Bool)
        → IsResumable (
            advance serde allowed
              (some m)
              (record p { conn = record { db = p.conn.db; faults = faults } }))
    go [] = stored_offset-upsert_kv (succ_i64 m) p.conn.db (succ_i64-InI64 m h)
    go (true ∷ later) = r
    go (false ∷ later) = stored_offset-upsert_kv (succ_i64 m) p.conn.db (succ_i64-InI64 m h)

module _ (serde : Serde) (allowed : Option (List ℤ)) where
  round-IsResumable :
      (reply : Reply (List Value)) (p : Poller)
      → IsResumable p
      → IsResumable (round serde allowed reply p).0
  unfolding round
  round-IsResumable (answered us) p r =
      advance-IsResumable serde allowed (max_update_id none us) _ (max_update_id-InI64 none us tt)
        (stored_offset-record_updates serde allowed us p.conn ∙ r)
  round-IsResumable (refused (rate_limited n)) p r = r
  round-IsResumable (refused _) p r = r

  rounds-IsResumable :
      (replies : List (Reply (List Value))) (p : Poller)
      → IsResumable p
      → IsResumable (rounds serde allowed replies p)
  unfolding rounds
  rounds-IsResumable [] p r = r
  rounds-IsResumable (reply ∷ replies) p r =
      rounds-IsResumable replies (round serde allowed reply p).0 (round-IsResumable reply p r)

  start-IsResumable : (c : Conn) {p : Poller} → (start c).0 ≡ ok p → IsResumable p
  unfolding start kv_get statement
  start-IsResumable c {p} h = go c.faults h
    where
      go : (faults : List Bool) → (start (record c { faults = faults })).0 ≡ ok p → IsResumable p
      go [] h = ground arith
      go (true ∷ later) h = cc
      go (false ∷ later) h = ground arith

  -- For a loop that began with `start`, whatever the Bot API answers and whichever statement of the
  -- store fails, a process that is started again on the tables, with no fault in its own start,
  -- begins at the offset that the loop had come to.
  pub restart_resumes :
      (c : Conn) (replies : List (Reply (List Value))) {p : Poller}
      → (start c).0 ≡ ok p
      → let q = rounds serde allowed replies p in
        let again = no_faults q.conn.db in
        (start again).0 ≡ ok (record { conn = again; offset = q.offset; backoff = 1 })
  unfolding start kv_get statement
  restart_resumes c replies {p} h = rw (rounds-IsResumable replies p (start-IsResumable c h))
