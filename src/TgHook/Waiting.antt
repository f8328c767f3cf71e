-- ===== src/TgHook/Waiting.antt =====
-- What the two flows of the hook share, of crates/tg-hook/src/main.rs, output.rs and stop_input.rs: the
-- messages, the effects, the wait over its events, and what a flow is surrounded by.
use telegram_mcpvscode.Prelude.{
  String, ◌<>◌, ℕ, ◌+◌, ◌-◌, ◌*◌, ◌^◌, ℤ, min, Bool, false, Option, none, some, List, [], ◌∷◌, ◌++◌,
  if◌then◌else◌, ltb, str_eq,
}
use telegram_mcpvscode.Prelude.Lists.{filter_map}
use telegram_mcpvscode.Prelude.Options.{◌>>=◌, unwrap_or}
use telegram_mcpvscode.Prelude.Text.{show_ℕ}
use telegram_mcpvscode.Prelude.Split.{join}
use telegram_mcpvscode.Json.{Value, get, as_str}
use telegram_mcpvscode.Json.Serde.{Serde}
use telegram_mcpvscode.TgHook.Cli.{CliArgs}
use telegram_mcpvscode.TgHook.Poll.{Reply}
use telegram_mcpvscode.TgHook.LocalInput.{System, LocalInputWatcher}
use telegram_mcpvscode.LocalPipe.Discovery.{DiscoveryRecord}
use telegram_mcpvscode.TgHook.Discovery.{File}
use telegram_mcpvscode.TgHook.McpClient.{Attempt, Line}

abbrev pub default_retry_message : String
default_retry_message =
    "No Telegram reply within the wait window. Decide whether to wait again or wrap up."

abbrev pub default_wakeup_message : String
default_wakeup_message =
    "Claude finished its turn — reply here to continue, or press Ctrl+C in Claude Code to release."

abbrev pub default_ack_message : String
default_ack_message = "Got it, working on it..."

abbrev pub stop_takeover_message : String
stop_takeover_message =
    "🖥\u{fe0f} You took over at the computer — Claude is waiting for you in VS Code."

abbrev pub ask_takeover_message : String
ask_takeover_message =
    "🖥\u{fe0f} You took over at the computer — answer the question in the VS Code dialog."

-- A line on stderr, a message to the chat, and the two ways to block.
pub data Effect : Type 0 where
  status : String → Effect
  poll_failed : Effect
  sent : String → Effect
  block tool_block : String → Effect

-- `run` returns, or fails, or the tool block ends the process.
pub data Ending : Type 0 where
  released failed exited : Ending

-- While the hook waits: the poll has what the server answers for a baseline.
pub data Event : Type 0 where
  ctrl_c timed_out : Event
  local_tick : System → Event
  poll_tick : (ℤ → Option Value) → Event

-- `waiting` is a hook that no event has ended yet.
pub record Result : Type 0 where
  pub ending : Option Ending
  pub effects : List Effect

pub data Next : Type 0 where
  go_on : LocalInputWatcher → List Effect → Next
  ends : Ending → List Effect → Next

abbrev pub stops : Ending → List Effect → Result
stops ending effects = record { ending = some ending; effects = effects }

abbrev pub after : List Effect → Result → Result
after effects r = record r { effects = effects ++ r.effects }

abbrev pub go_on_with : (LocalInputWatcher → Result) → Next → Result
go_on_with rest (go_on w effects) = after effects (rest w)
go_on_with rest (ends ending effects) = stops ending effects

-- The loop of `tokio::select!`, one event after the other.
unfoldable pub wait : (Event → LocalInputWatcher → Next) → List Event → LocalInputWatcher → Result
wait step [] w = record { ending = none; effects = [] }
wait step (e ∷ es) w = go_on_with (λ w'. wait step es w') (step e w)

-- `u32::try_from(secs.saturating_mul(1000)).unwrap_or(u32::MAX)`
unfoldable pub local_threshold_ms : CliArgs → ℕ
local_threshold_ms cli =
    let ms = min (cli.local_input_threshold_secs * 1000) (2 ^ 64 - 1) in
    if ltb ms (2 ^ 32) then ms else 2 ^ 32 - 1

abbrev pub text_of : Reply → String
text_of r = unwrap_or "(media-only message)" r.text

abbrev pub numbered : ℕ → List Reply → List String
numbered n [] = []
numbered n (r ∷ rs) = ("[" <> show_ℕ n <> "] " <> text_of r) ∷ numbered (n + 1) rs

unfoldable pub reason_of : List Reply → String
unfolding join show_ℕ
reason_of (r ∷ []) = text_of r
reason_of rs = join "\n" (numbered 1 rs)

unfoldable pub reply_text : List Reply → String
unfolding join filter_map
reply_text rs = join "\n" (filter_map (λ r. r.text) rs)

pub record StopInput : Type 0 where
  pub session_id : Option String
  pub transcript_path : Option String
  pub stop_hook_active : Option Bool
  pub last_assistant_message : Option String

-- What is outside: how serde decodes the input of the stop hook and a record, the files of the
-- discovery directory, which processes run, the session of the environment, the version of the
-- package, what the system makes of a pipe (as in McpClient), and what `call_tool` gives for a message
-- that is sent.
pub record Outside : Type 0 where
  pub serde : Serde
  pub from_value : Value → Option StopInput
  pub from_slice : String → Option DiscoveryRecord
  pub directory : Option (List File)
  pub process_alive : ℕ → Bool
  pub env_session : Option String
  pub version : String
  pub attempts : String → List Attempt
  pub incoming : String → List (Option String)
  pub accepts : List Line → Bool
  pub send : String → Option Value

abbrev pub is_str : String → Option String → Bool
is_str expected none = false
is_str expected (some s) = str_eq s expected

-- The input is about this tool.
abbrev pub is_ask : Value → Bool
is_ask input = is_str "AskUserQuestion" (get input "tool_name" >>= as_str)
