-- ===== src/Tests/Pipe.antt =====
-- The theorems on the accept loop of the pipe and on processes at concrete inputs.
use telegram_mcpvscode.Prelude.{
  ◌≤◌, ◌^◌, ◌≢◌, Bool, true, none, some, List, [], ◌∷◌, ◌++◌, ◌≡◌, ◌==◌, ◌||◌, ◌&&◌, ltb, ◌-◌,
  if◌then◌else◌, ◌↔◌, refl, arith, All,
}
use telegram_mcpvscode.LocalPipe.Auth.{Bytes, closed, auth_prefix}
use telegram_mcpvscode.LocalPipe.Auth.Tables.{IsByte}
use telegram_mcpvscode.LocalPipe.Server.{
  Event, create_failed, connect_failed, connected, start, run_pipe_server,
}
use telegram_mcpvscode.LocalPipe.Server.Handled.{
  SendsBytes, IsAuthenticated, handed-IsAuthenticated,
}
use telegram_mcpvscode.LocalPipe.Server.Claims.{IsBounded, run_pipe_server-IsBounded}
use telegram_mcpvscode.LocalPipe.Process.{Snapshot, ancestry_in}
use telegram_mcpvscode.LocalPipe.Process.Ancestry.{IsFullAncestry, ancestry_in-IsFullAncestry}
use telegram_mcpvscode.TgHook.LocalInput.{System, LocalInputWatcher, new, user_active}
use telegram_mcpvscode.TgHook.LocalInput.Present.{IsHost, user_active_iff}

abbrev token : Bytes
token = 97 ∷ 98 ∷ []

abbrev wrong_line : Bytes
wrong_line = auth_prefix ++ (97 ∷ 99 ∷ 10 ∷ [])

abbrev right_line : Bytes
right_line = auth_prefix ++ (token ++ (10 ∷ 123 ∷ []))

-- A client that fails to connect, one with a wrong token, a failure, and one with the token.
abbrev events : List Event
events =
    connect_failed ∷ connected wrong_line closed ∷ create_failed ∷ connected right_line closed ∷ []

All-bytes : All IsByte token
All-bytes = (omega arith, (omega arith, tt))

abbrev all_below_256 : Bytes → Bool
all_below_256 [] = true
all_below_256 (b ∷ bs) = ltb b 256 && all_below_256 bs

All-IsByte : (bs : Bytes) → all_below_256 bs ≡ true → All IsByte bs
All-IsByte [] h = tt
All-IsByte (b ∷ bs) h = (ground arith, All-IsByte bs (ground arith))

All-send_bytes : All SendsBytes events
All-send_bytes = (tt, (All-IsByte wrong_line refl, (tt, (All-IsByte right_line refl, tt))))

handed-IsAuthenticated_example :
    All (IsAuthenticated token) (run_pipe_server token true events start).handed
handed-IsAuthenticated_example =
    handed-IsAuthenticated token true All-bytes events start All-send_bytes tt

run_pipe_server-IsBounded_example : IsBounded (run_pipe_server token true events start)
run_pipe_server-IsBounded_example = run_pipe_server-IsBounded token true events

-- The editor's main process is 200; its window is 210, and the hook is 240, below 220. 300 is another
-- application, and 100 the shell.
abbrev processes : Snapshot
processes pid =
    if pid == 200
    then some (record { parent = 100; exe = "code.exe" })
    else if (pid == 210) || (pid == 220)
    then some (record { parent = 200; exe = "code.exe" })
    else if pid == 240
    then some (record { parent = 220; exe = "tg-hook.exe" })
    else if pid == 300
    then some (record { parent = 100; exe = "firefox.exe" })
    else if pid == 100
    then some (record { parent = 4; exe = "explorer.exe" })
    else none

ancestry_in-IsFullAncestry_example : IsFullAncestry processes 240 33 (ancestry_in processes 240)
ancestry_in-IsFullAncestry_example = ancestry_in-IsFullAncestry processes 240

-- The tick counter has started again since the last input.
abbrev at_the_window : System
at_the_window = record {
  last_input = some (2 ^ 32 - 500);
  tick_count = 1000;
  foreground_pid = 210;
  process_snapshot = processes;
}

abbrev hook_watcher : LocalInputWatcher
hook_watcher = new (220 ∷ 200 ∷ 100 ∷ 4 ∷ []) 2000

user_active_iff_example : ((user_active at_the_window hook_watcher).0 ≡ true) ↔ (
    (1500 ≤ 2000)
    × (at_the_window.foreground_pid ≢ 0)
    × IsHost processes (220 ∷ 200 ∷ 100 ∷ 4 ∷ []) (ancestry_in processes 210))
unfolding new
user_active_iff_example =
    user_active_iff at_the_window hook_watcher (2 ^ 32 - 500) 1500 refl (omega arith) (omega arith)
      refl
