-- ===== src/LocalPipe/Discovery.antt =====
-- crates/local-pipe/src/discovery.rs, and how `run_pipe_server` of server.rs uses it: the record of a
-- server is written to a file of the discovery directory before the accept loop begins, and the
-- guard removes the file when the loop ends or is dropped. The directory is the list of its files;
-- what the system answers to each call, and the text that serde makes of a record, are parameters.
pub mod Lifetime
use Prim.Native.Char.{code}
use telegram_mcpvscode.Prelude.{
  String, ◌<>◌, ℕ, pos, Bool, true, false, Option, none, some, List, [], ◌∷◌, str_eq, if◌then◌else◌,
}
use telegram_mcpvscode.Prelude.Text.{show_ℤ}
use telegram_mcpvscode.LocalPipe.Auth.{Bytes}
use telegram_mcpvscode.LocalPipe.Civil.{now_iso8601}
use telegram_mcpvscode.LocalPipe.Server.{Event, Listener, start, run_pipe_server, pipe_path}

pub record DiscoveryRecord : Type 0 where
  pub pid : ℕ
  pub ppid : ℕ
  pub pipe : String
  pub token : String
  pub session_id : Option String
  pub started_at : String

-- The files of the directory, by name.
abbrev pub Files : Type 0
Files = List (String × String)

unfoldable pub lookup : String → Files → Option String
lookup name [] = none
lookup name ((n, text) ∷ fs) = if str_eq n name then some text else lookup name fs

unfoldable pub put : String → String → Files → Files
put name text [] = (name, text) ∷ []
put name text ((n, old) ∷ fs) =
    if str_eq n name then (n, text) ∷ fs else (n, old) ∷ put name text fs

unfoldable pub drop : String → Files → Files
drop name [] = []
drop name ((n, text) ∷ fs) =
    let rest = drop name fs in if str_eq n name then rest else (n, text) ∷ rest

-- The name in `discovery_file_for`.
unfoldable pub file_name : ℕ → String
file_name pid = show_ℤ (pos pid) <> ".json"

-- How a write ends: there is no directory, the file cannot be opened, the write stops and leaves a
-- part of the text, or all is written.
pub data WriteEnd : Type 0 where
  no_directory refused written : WriteEnd
  torn : String → WriteEnd

abbrev pub store : WriteEnd → String → String → Files → Bool × Files
store no_directory name text fs = (false, fs)
store refused name text fs = (false, fs)
store (torn part) name text fs = (false, put name part fs)
store written name text fs = (true, put name text fs)

abbrev pub store_text : WriteEnd → String → Option String → Files → Bool × Files
store_text how name none fs = (false, fs)
store_text how name (some text) fs = store how name text fs

-- `removes` says whether the directory and the file can be reached.
unfoldable pub remove : Bool → ℕ → Files → Files
unfolding drop file_name
remove removes pid fs = if removes then drop (file_name pid) fs else fs

-- What `run_pipe_server` takes from its process, the environment, the clock and `uuid`.
pub record Startup : Type 0 where
  pub pid : ℕ
  pub ppid : ℕ
  pub token : String
  pub session_id : Option String
  pub now : Option ℕ

unfoldable pub record_of : Startup → DiscoveryRecord
unfolding pipe_path now_iso8601
record_of s = record {
  pid = s.pid;
  ppid = s.ppid;
  pipe = pipe_path s.pid;
  token = s.token;
  session_id = s.session_id;
  started_at = now_iso8601 s.now;
}

-- The bytes of a text of ASCII characters.
abbrev pub as_bytes : String → Bytes
as_bytes String.[] = []
as_bytes (String.◌∷◌ c s) = code c ∷ as_bytes s

module _ (to_string_pretty : DiscoveryRecord → Option String) where
  unfoldable pub write : WriteEnd → DiscoveryRecord → Files → Bool × Files
  unfolding put file_name
  write how r fs = store_text how (file_name r.pid) (to_string_pretty r) fs

  -- Whether the record was written, and the files while the server listens.
  unfoldable pub listening : WriteEnd → Startup → Files → Bool × Files
  unfolding write record_of
  listening how s fs = write how (record_of s) fs

  -- The whole of `run_pipe_server`: the accept loop ends by its error or is dropped after the events.
  -- The result is the loop's state, if it began, and the files that are left.
  unfoldable pub serve :
      WriteEnd → Bool → Bool → Startup → List Event → Files → Option Listener × Files
  unfolding listening remove run_pipe_server
  serve how removes secured s events fs =
      let (ok, there) = listening how s fs in
      if ok
      then (
        some (run_pipe_server (as_bytes s.token) secured events start),
        remove removes s.pid there,
      )
      else (none, there)
