-- ===== src/TgHook/LocalInput.antt =====
-- The watcher of crates/tg-hook/src/local_input.rs. What the system answers at a call is an argument:
-- the tick counts, the process of the focused window, and the snapshot of the processes.
pub mod Present
use telegram_mcpvscode.Prelude.{
  String, ℕ, ◌+◌, ◌-◌, ◌^◌, ◌%◌, ◌≤◌, ◌≢◌, Bool, true, false, not, Option, none, some, List, [],
  ◌∷◌, ◌++◌, ◌≡◌, refl, sym, ◌∙◌, ◌↔◌, inl, inr, arith, leb, ltb, ◌==◌, str_eq, if◌then◌else◌, All,
  Bool-cases,
}
use telegram_mcpvscode.Prelude.Options.{is_some}
use telegram_mcpvscode.Prelude.Lists.{any_by}
use telegram_mcpvscode.LocalPipe.Process.{ProcInfo, Snapshot, contains, ancestry_in}

-- `now.wrapping_sub(then)` on u32
unfoldable pub wrapping_sub : ℕ → ℕ → ℕ
wrapping_sub now before = (now + 2 ^ 32 - before) % 2 ^ 32

-- What the system answers: the time of the last input (`none` where the call fails) and of now.
pub record System : Type 0 where
  pub last_input : Option ℕ
  pub tick_count : ℕ
  pub foreground_pid : ℕ
  pub process_snapshot : Snapshot

abbrev pub generic_names : List String
generic_names =
    "explorer.exe" ∷ "svchost.exe" ∷ "services.exe" ∷ "wininit.exe" ∷ "winlogon.exe"
    ∷ "userinit.exe" ∷ "runtimebroker.exe" ∷ "" ∷ []

unfoldable pub is_generic_name : Option ProcInfo → Bool
unfolding any_by
is_generic_name none = true
is_generic_name (some info) = any_by (str_eq info.exe) generic_names

module _ (snap : Snapshot) where
  unfoldable pub is_generic_ancestor : ℕ → Bool
  unfolding is_generic_name
  is_generic_ancestor pid = if leb pid 4 then true else is_generic_name (snap pid)

  -- The loop over the ancestry of the focused window.
  unfoldable pub nearest_is_host : List ℕ → List ℕ → Bool
  unfolding is_generic_ancestor contains
  nearest_is_host [] host_pids = false
  nearest_is_host (pid ∷ pids) host_pids =
      if contains host_pids pid
      then not (is_generic_ancestor pid)
      else nearest_is_host pids host_pids

  unfoldable pub focused_window_is_host : ℕ → List ℕ → Bool
  unfolding nearest_is_host ancestry_in
  focused_window_is_host fg_pid host_pids = nearest_is_host (ancestry_in snap fg_pid) host_pids

pub record LocalInputWatcher : Type 0 where
  pub host_pids : List ℕ
  pub threshold_millis : ℕ
  pub snapshot : Snapshot

unfoldable pub new : List ℕ → ℕ → LocalInputWatcher
new host_pids threshold_millis = record {
  host_pids = host_pids;
  threshold_millis = threshold_millis;
  snapshot = λ pid. none;
}

unfoldable pub millis_since_input : System → Option ℕ
unfolding wrapping_sub
millis_since_input system = elim system.last_input [
  | none ↦ none
  | some time ↦ some (wrapping_sub system.tick_count time)
]

-- A new snapshot is taken where the cached one does not know the focused window.
abbrev pub refreshed : System → LocalInputWatcher → LocalInputWatcher
refreshed system w =
    if is_some (w.snapshot system.foreground_pid)
    then w
    else record w { snapshot = system.process_snapshot }

abbrev pub focused : System → LocalInputWatcher → Bool × LocalInputWatcher
focused system w =
    if system.foreground_pid == 0
    then (false, w)
    else let w' = refreshed system w in
      (focused_window_is_host w'.snapshot system.foreground_pid w.host_pids, w')

abbrev pub recent : Option ℕ → System → LocalInputWatcher → Bool × LocalInputWatcher
recent none system w = (false, w)
recent (some elapsed) system w =
    if ltb w.threshold_millis elapsed then (false, w) else focused system w

unfoldable pub user_active : System → LocalInputWatcher → Bool × LocalInputWatcher
unfolding millis_since_input focused_window_is_host
user_active system w = recent (millis_since_input system) system w
