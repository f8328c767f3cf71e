-- ===== src/TgHook/Discovery.antt =====
-- crates/tg-hook/src/discovery.rs: the records of the servers that run, and the choice among them. The files of the directory are what
-- the system answers; how a record is parsed and whether a process runs are parameters.
pub mod Picking
pub mod Reached
use telegram_mcpvscode.Prelude.{
  String, ℕ, ◌==◌, Bool, false, Option, none, some, List, [], ◌∷◌, if◌then◌else◌, str_eq,
}
use telegram_mcpvscode.Prelude.Options.{or_else}
use telegram_mcpvscode.Prelude.Lists.{find_by}
use telegram_mcpvscode.LocalPipe.Discovery.{DiscoveryRecord}

-- An entry of the directory: `none` for what could not be listed or read.
pub record File : Type 0 where
  pub path : String
  pub content : Option String

-- The records that `load_all` returns, and the files that it removes.
pub record Loaded : Type 0 where
  pub records : List DiscoveryRecord
  pub removed : List String

module _ (from_slice : String → Option DiscoveryRecord) (process_alive : ℕ → Bool) where
  abbrev pub kept : DiscoveryRecord → String → Loaded → Loaded
  kept rec path l =
      if process_alive rec.pid
      then record l { records = rec ∷ l.records }
      else record l { removed = path ∷ l.removed }

  abbrev pub parsed : Option DiscoveryRecord → String → Loaded → Loaded
  parsed none path l = record l { removed = path ∷ l.removed }
  parsed (some rec) path l = kept rec path l

  abbrev entry : String → Option String → Loaded → Loaded
  entry path none l = l
  entry path (some bytes) l = parsed (from_slice bytes) path l

  unfoldable pub load_entries : List File → Loaded
  load_entries [] = record { records = []; removed = [] }
  load_entries (f ∷ fs) = entry f.path f.content (load_entries fs)

  -- `none` is a directory that could not be read.
  unfoldable pub load_all : Option (List File) → Option Loaded
  unfolding load_entries
  load_all none = none
  load_all (some files) = some (load_entries files)

abbrev pub is_session : String → Option String → Bool
is_session sid none = false
is_session sid (some s) = str_eq s sid

abbrev pub has_session : String → DiscoveryRecord → Bool
has_session sid r = is_session sid r.session_id

abbrev pub has_parent : ℕ → DiscoveryRecord → Bool
has_parent pid r = r.ppid == pid

module _ (records : List DiscoveryRecord) where
  unfoldable pub by_session : Option String → Option DiscoveryRecord
  unfolding find_by
  by_session none = none
  by_session (some sid) = find_by (has_session sid) records

  unfoldable pub by_parent : List ℕ → Option DiscoveryRecord
  unfolding find_by
  by_parent [] = none
  by_parent (pid ∷ pids) =
      let rest = by_parent pids in or_else (find_by (has_parent pid) records) rest

  abbrev pub only_one : List DiscoveryRecord → Option DiscoveryRecord
  only_one (r ∷ []) = some r
  only_one _ = none

  unfoldable pub pick_record : Option String → List ℕ → Option DiscoveryRecord
  unfolding by_session by_parent
  pick_record session_id_env pid_chain =
      or_else (by_session session_id_env) (or_else (by_parent pid_chain) (only_one records))
