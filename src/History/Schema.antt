-- ===== src/History/Schema.antt =====
-- Opening the history: the migrations of crates/history/src/schema.rs, and `open` and `schema_version`
-- of store.rs. A file without tables is `none`; the schema makes the four tables at once, and fails
-- where they exist. As on a connection, the list of faults decides which statements fail.
pub mod Migrating
use telegram_mcpvscode.Prelude.{
  String, ℕ, ◌^◌, ltb, leb, ◌==◌, Bool, true, false, Option, none, some, List, [], ◌∷◌,
  if◌then◌else◌,
}
use telegram_mcpvscode.Prelude.Options.{unwrap_or}
use telegram_mcpvscode.Prelude.Text.{parse_u64}
use telegram_mcpvscode.History.Types.{HistoryError, sqlite, migration, corruption}
use telegram_mcpvscode.History.Conn.{Db, Result, ok, err}
use telegram_mcpvscode.History.Sql.{upsert_kv, select_kv}

abbrev pub current_version : ℕ
current_version = 1

abbrev pub no_rows : Db
no_rows = record { chats = []; messages = []; fts = []; kv = [] }

pub record File : Type 0 where
  pub tables : Option Db
  pub faults : List Bool

abbrev pub Action : Type 0 → Type 0
Action A = File → Result A × File

abbrev pub pure : {A : Type 0} → A → Action A
pure a f = (ok a, f)

abbrev pub proceed : {A B : Type 0} → (A → Action B) → Result A × File → Result B × File
proceed k (ok a, f) = k a f
proceed k (err e, f) = (err e, f)

infixl 5 ◌>>=◌ ◌>>◌
abbrev pub ◌>>=◌ : {A B : Type 0} → Action A → (A → Action B) → Action B
◌>>=◌ m k f = proceed k (m f)

abbrev pub ◌>>◌ : {B : Type 0} → Action (Unit {0}) → Action B → Action B
m >> k = m >>= λ _. k

-- What a statement does when the engine runs it: a result, and the tables after it.
abbrev pub ran : {A : Type 0} → Result A × Option Db → List Bool → Result A × File
ran (r, t) later = (r, record { tables = t; faults = later })

unfoldable pub statement :
    {A : Type 0} → HistoryError → (Option Db → Result A × Option Db) → Action A
statement failure s f = elim f.faults [
  | [] ↦ ran (s f.tables) []
  | true ∷ later ↦ (err failure, record f { faults = later })
  | false ∷ later ↦ ran (s f.tables) later
]

-- A statement that changes no table.
abbrev pub reads : {A : Type 0} → (Option Db → A) → Action A
reads s = statement sqlite (λ t. (ok (s t), t))

abbrev pub is_there : Option Db → Bool
is_there none = false
is_there (some db) = true

abbrev pub value_in : String → Option Db → Option String
value_in key none = none
value_in key (some db) = select_kv key db

abbrev pub parse_u32 : Option ℕ → Option ℕ
parse_u32 none = none
parse_u32 (some n) = if ltb n (2 ^ 32) then some n else none

abbrev pub number_in : Option String → Option ℕ
number_in none = none
number_in (some s) = parse_u32 (parse_u64 s)

-- `.ok()`: a failure of the query is no value.
abbrev pub attempted : Result (Option String) × File → Result (Option String) × File
attempted (ok v, f) = (ok v, f)
attempted (err e, f) = (ok none, f)

abbrev pub attempt : Action (Option String) → Action (Option String)
attempt m f = attempted (m f)

abbrev pub version_of : Option String → ℕ
version_of v = unwrap_or 0 (number_in v)

unfoldable pub recorded_version : Action ℕ
unfolding select_kv parse_u64
recorded_version = do v ← attempt (reads (value_in "schema_version")); pure (version_of v)

unfoldable pub read_version : Action ℕ
unfolding recorded_version
read_version = do exists ← reads is_there; elim exists [ true ↦ recorded_version | false ↦ pure 0 ]

abbrev pub create_tables : Option Db → Result (Unit {0}) × Option Db
create_tables none = (ok tt, some no_rows)
create_tables (some db) = (err (migration 0 1), some db)

abbrev pub record_version : Option Db → Result (Unit {0}) × Option Db
record_version none = (err sqlite, none)
record_version (some db) = (ok tt, some (upsert_kv "schema_version" "1" db))

-- A transaction that fails leaves the tables as they were.
abbrev pub rollback : {A : Type 0} → Option Db → Result A × File → Result A × File
rollback old (ok a, f) = (ok a, f)
rollback old (err e, f) = (err e, record f { tables = old })

abbrev pub nothing : Action (Unit {0})
nothing = reads (λ t. tt)

abbrev pub first_schema : Action (Unit {0})
first_schema = do statement (migration 0 1) create_tables; statement sqlite record_version

abbrev pub upgrade : ℕ → Action ℕ
upgrade current f = rollback f.tables (
    (do nothing; (if current == 0 then first_schema else pure tt); nothing; pure current_version) f)

abbrev pub from_version : ℕ → Action ℕ
from_version current = if leb current_version current then pure current else upgrade current

-- The two pragmas change no table.
unfoldable pub migrate : Action ℕ
unfolding read_version statement upsert_kv
migrate = do nothing; nothing; current ← read_version; from_version current

abbrev found : Option String → Action String
found none f = (err sqlite, f)
found (some s) f = (ok s, f)

abbrev numbered : Option ℕ → Action ℕ
numbered none f = (err (corruption "schema_version not a number"), f)
numbered (some n) f = (ok n, f)

unfoldable pub schema_version : Action ℕ
unfolding select_kv statement parse_u64
schema_version = do
  value ← reads (value_in "schema_version")
  v ← found value
  numbered (number_in (some v))
