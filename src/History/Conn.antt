-- ===== src/History/Conn.antt =====
-- The connection: the four tables, and how a statement and a transaction run on them. A statement
-- may fail, as the list of faults decides; a failed statement has no effect.
pub mod Effect
use telegram_mcpvscode.Prelude.{
  String, ℕ, ℤ, Bool, true, false, Option, none, some, List, [], ◌∷◌, ◌≡◌, refl, arith,
}
use telegram_mcpvscode.History.Types.{HistoryError, sqlite}

pub record ChatRow : Type 0 where
  pub chat_id : ℤ
  pub kind : String
  pub title : Option String
  pub username : Option String
  pub first_seen : ℤ
  pub last_seen : ℤ

pub record MessageRow : Type 0 where
  pub rowid : ℕ
  pub chat_id : ℤ
  pub message_id : ℤ
  pub date : ℤ
  pub from_id : Option ℤ
  pub from_name : Option String
  pub reply_to : Option ℤ
  pub text : Option String
  pub media_kind : Option String
  pub media_file_id : Option String
  pub media_meta : Option String
  pub direction : String
  pub raw : String

-- An entry of `messages_fts`: the row that it indexes and the text that it indexed.
pub record FtsEntry : Type 0 where
  pub rowid : ℕ
  pub text : Option String

pub record Db : Type 0 where
  pub chats : List ChatRow
  pub messages : List MessageRow
  pub fts : List FtsEntry
  pub kv : List (String × String)

-- `faults` says of each next statement whether the engine fails on it; past its end none does.
pub record Conn : Type 0 where
  pub db : Db
  pub faults : List Bool

pub data Result (A : Type 0) : Type 0 where
  ok : A → Result A
  err : HistoryError → Result A

abbrev pub Action : Type 0 → Type 0
Action A = Conn → Result A × Conn

module _ {A : Type 0} where
  abbrev pub pure : A → Action A
  pure a c = (ok a, c)

  abbrev pub fail : HistoryError → Action A
  fail e c = (err e, c)

  -- `row.ok_or(e)?`
  abbrev pub require : HistoryError → Option A → Action A
  require e none = fail e
  require e (some a) = pure a

  -- The effect of a statement on the tables, with what it returns.
  abbrev run : (Db → A × Db) → List Bool → Db → Result A × Conn
  run f later db = (ok (f db).0, record { db = (f db).1; faults = later })

  unfoldable pub statement : (Db → A × Db) → Action A
  statement f c = elim c.faults [
    | [] ↦ run f [] c.db
    | fault ∷ later ↦ elim fault [
      | true ↦ (err sqlite, record { db = c.db; faults = later })
      | false ↦ run f later c.db
    ]
  ]

module _ {A B : Type 0} where
  abbrev pub proceed : (A → Action B) → Result A → Action B
  proceed f (ok a) c = f a c
  proceed f (err e) c = (err e, c)

  infixl 5 ◌>>=◌
  abbrev pub ◌>>=◌ : Action A → (A → Action B) → Action B
  ◌>>=◌ m f c = proceed f (m c).0 (m c).1

infixl 5 ◌>>◌
abbrev pub ◌>>◌ : {B : Type 0} → Action (Unit {0}) → Action B → Action B
m >> k = m >>= λ _. k

-- A statement that reads, and one that writes.
abbrev pub query : {A : Type 0} → (Db → A) → Action A
query f = statement (λ db. (f db, db))

abbrev pub execute : (Db → Db) → Action (Unit {0})
execute f = statement (λ db. (tt, f db))

module _ {A : Type 0} where
  -- A dropped transaction rolls back.
  unfoldable pub rollback : Db → Result A × Conn → Result A × Conn
  rollback old (ok a, c) = (ok a, c)
  rollback old (err e, c) = (err e, record c { db = old })

  -- `BEGIN`, the body and `COMMIT`; an error on the way leaves the tables as they were.
  unfoldable pub transaction : Action A → Action A
  unfolding rollback statement
  transaction body c =
      rollback c.db ((do execute (λ db. db); a ← body; execute (λ db. db); pure a) c)
