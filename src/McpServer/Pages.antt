-- ===== src/McpServer/Pages.antt =====
-- How long a page of `tg_history_messages` may be.
use telegram_mcpvscode.Prelude.{
  ℕ, ◌≤◌, ℤ, pos, negsuc, Bool, true, false, Option, List, [], ◌∷◌, ◌≡◌, refl, sym, ap, subst,
  arith, length, ltb, Bool-cases, inl, inr,
}
use telegram_mcpvscode.Json.Serde.{Serde}
use telegram_mcpvscode.History.Types.{StoredMessage}
use telegram_mcpvscode.History.Conn.{
  MessageRow, Db, Conn, Result, ok, err, Action, proceed, statement,
}
use telegram_mcpvscode.History.Sql.{select_page}
use telegram_mcpvscode.History.Store.{message_of_row, messages_of_rows, messages}
use telegram_mcpvscode.History.Store.Paging.{select_page_lem}
use telegram_mcpvscode.McpServer.Inputs.{HistoryMessagesInput}
use telegram_mcpvscode.McpServer.Wire.{World, Tool, of_result}
use telegram_mcpvscode.McpServer.Wire
use telegram_mcpvscode.McpServer.Tools.{State, page, resolve_chat, clamp_limit}
use telegram_mcpvscode.McpServer.Calls.{history_messages}

module _ {A B : Type 0} where
  -- A chain that returns has a step that returned.
  proceed-ok :
      (f : A → Action B) (r : Result A) (c : Conn) {b : B}
      → (proceed f r c).0 ≡ ok b
      → (a : A) × (r ≡ ok a) × ((f a c).0 ≡ ok b)
  proceed-ok f (ok a) c h = (a, refl, h)
  proceed-ok f (err e) c h = cc

module _ (serde : Serde) where
  length-messages_of_rows :
      (rows : List MessageRow) (c : Conn) {ms : List StoredMessage}
      → (messages_of_rows serde rows c).0 ≡ ok ms
      → length ms ≡ length rows
  unfolding messages_of_rows
  length-messages_of_rows [] c {ms} h = let e : ms ≡ [] = cc h in rw e
  length-messages_of_rows (r ∷ rows) c {ms} h =
      let (m, _, h1) = proceed-ok _ (message_of_row serde r c).0 (message_of_row serde r c).1 h in
      let c1 = (message_of_row serde r c).1 in
      let (rest, e, h2) =
        proceed-ok _ (messages_of_rows serde rows c1).0 (messages_of_rows serde rows c1).1 h1 in
      let same : ms ≡ m ∷ rest = cc h2 in
      let l = length-messages_of_rows rows c1 e in rw same (omega (arith, l))

clamp_limit_lem : (limit : ℤ) → (n : ℕ) × (clamp_limit limit ≡ pos n) × (1 ≤ n) × (n ≤ 500)
clamp_limit_lem (pos n) = elim (Bool-cases (ltb n 1)) [
  | inl low ↦ (1, ground (arith, low), omega arith, omega arith)
  | inr fits ↦ elim (Bool-cases (ltb 500 n)) [
    | inl high ↦ (500, ground (arith, fits, high), omega arith, omega arith)
    | inr small ↦ (n, ground (arith, fits, small), ground arith, ground arith)
  ]
]
clamp_limit_lem (negsuc n) = (1, ground arith, omega arith, omega arith)

length-select_page :
    (chat_id : ℤ) (before after : Option ℤ) (limit : ℕ) (db : Db)
    → length (select_page chat_id before after (pos limit) db) ≤ limit
length-select_page chat_id before after limit db =
    let (_, _, (_, _, _, _, e)) = select_page_lem chat_id before after limit db in omega (arith, e)

-- The store gives at most `limit` messages.
length-messages :
    (serde : Serde) (chat_id : ℤ) (before after : Option ℤ) (limit : ℕ) (c : Conn)
    {ms : List StoredMessage}
    → (messages serde chat_id before after (pos limit) c).0 ≡ ok ms
    → length ms ≤ limit
unfolding messages statement
length-messages serde chat_id before after limit c {ms} h = go c.faults h
  where
    rows : List MessageRow
    rows = select_page chat_id before after (pos limit) c.db

    bound : (d : Conn) → (messages_of_rows serde rows d).0 ≡ ok ms → length ms ≤ limit
    bound d k =
        let e = length-messages_of_rows serde rows d k in
        let b = length-select_page chat_id before after limit c.db in omega (arith, e, b)

    go :
        (faults : List Bool)
        → (messages serde chat_id before after (pos limit) (record c { faults = faults })).0 ≡ ok ms
        → length ms ≤ limit
    go [] k = bound _ k
    go (true ∷ later) k = cc
    go (false ∷ later) k = bound _ k

module _ {A : Type 0} where
  tool-proceed-ok :
      {B : Type 0} (f : A → Tool B) (r : Wire.Result A) (w : World) {b : B}
      → (Wire.proceed f r w).0 ≡ Wire.ok b
      → (a : A) × (r ≡ Wire.ok a) × ((f a w).0 ≡ Wire.ok b)
  tool-proceed-ok f (Wire.ok a) w h = (a, refl, h)
  tool-proceed-ok f (Wire.err e) w h = cc

  of_result-ok : (r : Result A) {a : A} → of_result r ≡ Wire.ok a → r ≡ ok a
  of_result-ok (ok x) {a} h = let e : x ≡ a = cc h in ap ok e
  of_result-ok (err e) {a} h = cc

-- Whatever limit the caller asks for, and whichever statement fails, if `tg_history_messages`
-- answers with a page, the page has at most 500 messages.
pub page_bound :
    (serde : Serde) (state : State) (input : HistoryMessagesInput) (w : World)
    {ms : List StoredMessage}
    → (history_messages serde state input w).0 ≡ Wire.ok (page ms)
    → length ms ≤ 500
unfolding history_messages
page_bound serde state input w {ms} h =
    let (chat_id, _, h1) =
      tool-proceed-ok _ (resolve_chat state.aliases input.chat w).0
        (resolve_chat state.aliases input.chat w).1 h in
    let w1 = (resolve_chat state.aliases input.chat w).1 in
    let (n, e, least, most) = clamp_limit_lem input.limit in
    let stored =
      (messages serde chat_id input.before_message_id input.after_message_id
        (clamp_limit input.limit) w1.conn) in
    let (found, k, h2) =
      tool-proceed-ok _ (of_result stored.0) (record w1 { conn = stored.1 }) h1 in
    let same : found ≡ ms = cc h2 in
    let l = length-messages serde chat_id input.before_message_id input.after_message_id n w1.conn (
      subst
        (λ z.
          (messages serde chat_id input.before_message_id input.after_message_id z w1.conn).0
          ≡ ok found)
        e (of_result-ok stored.0 k)) in
    rw (sym same) (omega (arith, l, most))
