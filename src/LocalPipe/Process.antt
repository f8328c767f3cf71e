-- ===== src/LocalPipe/Process.antt =====
-- The snapshot of the running processes and the ancestry of a process,
-- crates/local-pipe/src/process.rs. The entries that the system lists, and how a name is decoded from
-- UTF-16 and made lower case, are parameters. A snapshot is a function from a process to what is known
-- of it.
pub mod Ancestry
use telegram_mcpvscode.Prelude.{
  String, ℕ, zero, suc, Bool, ◌||◌, Option, none, some, List, [], ◌∷◌, ◌++◌, ◌==◌, if◌then◌else◌,
}
use telegram_mcpvscode.Prelude.Lists.{any_by}
use telegram_mcpvscode.Prelude.Options.{◌>>=◌, unwrap_or}

pub record ProcInfo : Type 0 where
  pub parent : ℕ
  pub exe : String

abbrev pub Snapshot : Type 0
Snapshot = ℕ → Option ProcInfo

-- The fields of an entry that are read.
pub record ProcessEntry : Type 0 where
  pub process_id : ℕ
  pub parent_process_id : ℕ
  pub exe_file : List ℕ

abbrev until_nul : List ℕ → List ℕ
until_nul [] = []
until_nul (c ∷ cs) = let rest = until_nul cs in if c == 0 then [] else c ∷ rest

module _ (lowercase_of : List ℕ → String) where
  unfoldable pub exe_name : List ℕ → String
  exe_name units = lowercase_of (until_nul units)

  unfoldable pub insert : ProcessEntry → Snapshot → Snapshot
  unfolding exe_name
  insert e snap = λ pid.
      if pid == e.process_id
      then some (record { parent = e.parent_process_id; exe = exe_name e.exe_file })
      else snap pid

  unfoldable pub insert_all : List ProcessEntry → Snapshot → Snapshot
  unfolding insert
  insert_all [] snap = snap
  insert_all (e ∷ es) snap = insert_all es (insert e snap)

  -- `none` is a snapshot that the system does not give.
  unfoldable pub process_snapshot : Option (List ProcessEntry) → Snapshot
  unfolding insert_all
  process_snapshot none = λ pid. none
  process_snapshot (some entries) = insert_all entries (λ pid. none)

unfoldable pub contains : List ℕ → ℕ → Bool
unfolding any_by
contains pids pid = any_by (λ p. p == pid) pids

abbrev pub new_parent : List ℕ → ℕ → ℕ → Option ℕ
new_parent chain cur parent =
    if (parent == 0) || (parent == cur) || contains chain parent then none else some parent

module _ (snap : Snapshot) where
  -- The process that a round of the walk pushes; `none` where it breaks.
  unfoldable pub next_parent : List ℕ → ℕ → Option ℕ
  unfolding contains
  next_parent chain cur = do info ← snap cur; new_parent chain cur info.parent

  unfoldable pub walk : ℕ → List ℕ → ℕ → List ℕ
  unfolding next_parent
  walk zero chain cur = chain
  walk (suc rounds) chain cur = elim (next_parent chain cur) [
    | none ↦ chain
    | some parent ↦ walk rounds (chain ++ (parent ∷ [])) parent
  ]

  unfoldable pub ancestry_in : ℕ → List ℕ
  unfolding walk
  ancestry_in pid = walk 32 (pid ∷ []) pid

  abbrev without_first : List ℕ → List ℕ
  without_first [] = []
  without_first (p ∷ ps) = ps

  abbrev first_of : List ℕ → Option ℕ
  first_of [] = none
  first_of (p ∷ ps) = some p

  -- `pid` is the running process.
  unfoldable pub pid_ancestry_chain : ℕ → List ℕ
  unfolding ancestry_in
  pid_ancestry_chain pid = without_first (ancestry_in pid)

  unfoldable pub parent_pid : ℕ → ℕ
  unfolding pid_ancestry_chain
  parent_pid pid = unwrap_or 0 (first_of (pid_ancestry_chain pid))
