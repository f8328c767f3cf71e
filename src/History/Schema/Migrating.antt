-- ===== src/History/Schema/Migrating.antt =====
-- What a migration does to the tables that are there.
use telegram_mcpvscode.Prelude.{
  ℕ, ◌≤◌, leb, ◌==◌, Bool, true, false, Option, none, some, List, [], ◌∷◌, ◌≡◌, refl, ◌⊎◌, inl, inr,
  arith, if◌then◌else◌, if-cases,
}
use telegram_mcpvscode.History.Types.{HistoryError, sqlite, migration}
use telegram_mcpvscode.History.Conn.{Db, Result, ok, err}
use telegram_mcpvscode.History.Sql.{upsert_kv}
use telegram_mcpvscode.History.Schema.{
  File, Action, pure, proceed, ◌>>=◌, ◌>>◌, ran, statement, is_there, value_in, version_of,
  recorded_version, read_version, create_tables, record_version, rollback, nothing, first_schema,
  upgrade, from_version, migrate, no_rows, current_version,
}

abbrev pub first_tables : Db
first_tables = upsert_kv "schema_version" "1" no_rows

-- The tables are those that were there, with their version if all went well; or there were none, and
-- the first schema was made.
abbrev pub Migrated : Option Db → Result ℕ × File → Type 0
Migrated old (err e, f) = f.tables ≡ old
Migrated old (ok v, f) =
    ((f.tables ≡ old) × (1 ≤ v) × (v ≡ version_of (value_in "schema_version" old)))
    ⊎ ((old ≡ none) × (f.tables ≡ some first_tables) × (v ≡ 1))

-- To follow a statement, its effect and its failure are looked at.
module _ {A B : Type 0} (P : Result B × File → Type 0) (k : A → Action B) (t : Option Db) where
  after_statement :
      (failure : HistoryError) (s : Option Db → Result A × Option Db) (faults : List Bool)
      → ((later : List Bool) → P (proceed k (ran (s t) later)))
      → ((later : List Bool) → P (err failure, record { tables = t; faults = later }))
      → P (proceed k (statement failure s (record { tables = t; faults = faults })))
  unfolding statement
  after_statement failure s [] done failed = done []
  after_statement failure s (true ∷ later) done failed = failed later
  after_statement failure s (false ∷ later) done failed = done later

-- In a transaction only success counts: the tables are then those of the first schema.
abbrev Upgraded : Option Db → Result ℕ × File → Type 0
Upgraded old (err e, f) = Unit
Upgraded old (ok v, f) = Migrated old (ok v, f)

rollback-Migrated :
    (old : Option Db) (r : Result ℕ × File) → Upgraded old r → Migrated old (rollback old r)
rollback-Migrated old (ok v, f) h = h
rollback-Migrated old (err e, f) h = refl

commit : Action ℕ
commit = do nothing; pure current_version

abbrev at_first : Option Db → List Bool → File
at_first t faults = record { tables = t; faults = faults }

commit-Upgraded :
    (old t : Option Db) (faults : List Bool)
    → ((later : List Bool) → Migrated old (ok current_version, at_first t later))
    → Upgraded old (commit (at_first t faults))
unfolding commit
commit-Upgraded old t faults h =
    after_statement (Upgraded old) (λ _. pure current_version) t sqlite (λ t. (ok tt, t)) faults h
      (λ later. tt)

first_schema-Upgraded :
    (old : Option Db) (faults : List Bool)
    → Upgraded old ((first_schema >> commit) (at_first old faults))
first_schema-Upgraded old faults =
    after_statement (λ r. Upgraded old (proceed (λ _. commit) r))
      (λ _. statement sqlite record_version) old (migration 0 1) create_tables faults
      (λ later. created old later) (λ later. tt)
  where
    created :
        (old : Option Db) (later : List Bool)
        → Upgraded old (
            proceed
              (λ _. commit)
              (proceed (λ _. statement sqlite record_version) (ran (create_tables old) later)))
    created (some db) later = tt
    created none later =
        after_statement (Upgraded none) (λ _. commit) (some no_rows) sqlite record_version later
          (λ later'. commit-Upgraded none (some first_tables) later' (λ l. inr (refl, refl, refl)))
          (λ later'. tt)

upgrade-Migrated :
    (old : Option Db) (current : ℕ) (faults : List Bool)
    → leb current_version current ≡ false
    → Migrated old (upgrade current (at_first old faults))
unfolding commit
upgrade-Migrated old current faults below =
    let unversioned : (current == 0) ≡ true = ground arith in
    rollback-Migrated old _ (
      after_statement (Upgraded old)
        (λ _. (if current == 0 then first_schema else pure tt) >> commit) old sqlite
        (λ t. (ok tt, t)) faults (λ later. rw unversioned (first_schema-Upgraded old later))
        (λ later. tt))

from_version-Migrated :
    (old : Option Db) (current : ℕ) (faults : List Bool)
    → (leb current_version current ≡ true → current ≡ version_of (value_in "schema_version" old))
    → Migrated old (from_version current (at_first old faults))
from_version-Migrated old current faults known =
    if-cases (λ (m : Action ℕ). Migrated old (m (at_first old faults)))
      (leb current_version current) (λ enough. inl (refl, ground (arith, enough), known enough))
      (λ below. upgrade-Migrated old current faults below)

recorded_version-Migrated :
    (old : Option Db) (faults : List Bool)
    → Migrated old ((recorded_version >>= from_version) (at_first old faults))
unfolding recorded_version statement
recorded_version-Migrated old [] = from_version-Migrated old _ [] (λ _. refl)
recorded_version-Migrated old (true ∷ later) = from_version-Migrated old 0 later (λ h. cc)
recorded_version-Migrated old (false ∷ later) = from_version-Migrated old _ later (λ _. refl)

-- Whichever statements fail, a migration that fails leaves the tables of the file as they were; one
-- that returns has either left them as they were, and returned their recorded version, of at least
-- 1, or found none and made the tables of the first schema, with version 1 recorded and returned.
pub migrate-Migrated :
    (old : Option Db) (faults : List Bool)
    → Migrated old (migrate (record { tables = old; faults = faults }))
unfolding migrate read_version
migrate-Migrated old faults =
    after_statement (Migrated old) _ old sqlite (λ t. (ok tt, t)) faults
      (λ later.
        after_statement (Migrated old) _ old sqlite (λ t. (ok tt, t)) later
          (λ later'.
            after_statement (λ r. Migrated old (proceed from_version r)) _ old sqlite
              (λ t. (ok (is_there t), t)) later' (λ l. versioned old l) (λ l. refl))
          (λ later'. refl))
      (λ later. refl)
  where
    versioned :
        (old : Option Db) (l : List Bool)
        → Migrated old (
            proceed from_version (
              (elim (is_there old) as (λ _. Action ℕ) [ true ↦ recorded_version | false ↦ pure 0 ])
                (at_first old l)))
    versioned none l = from_version-Migrated none 0 l (λ h. cc)
    versioned (some db) l = recorded_version-Migrated (some db) l
