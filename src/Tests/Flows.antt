-- ===== src/Tests/Flows.antt =====
-- The theorems on the two flows of the hook and their parts at concrete inputs.
use telegram_mcpvscode.Prelude.{
  String, pos, Bool, true, false, Option, none, some, List, [], ◌∷◌, ◌≡◌, arith, str_eq,
  if◌then◌else◌, All,
}
use telegram_mcpvscode.Json.{Value, obj, arr, str, num, field, end, cons, nil}
use telegram_mcpvscode.Json.Serde.{Serde}
use telegram_mcpvscode.TgHook.Cli.{CliArgs, parsed, parse_from}
use telegram_mcpvscode.TgHook.Cli.Printed.{to_argv, parse_from-to_argv}
use telegram_mcpvscode.LocalPipe.Discovery.{DiscoveryRecord}
use telegram_mcpvscode.TgHook.Discovery.{pick_record}
use telegram_mcpvscode.TgHook.Discovery.Picking.{IsPick, pick_record-IsPick}
use telegram_mcpvscode.TgHook.McpClient.{opened, busy, Line, connect}
use telegram_mcpvscode.TgHook.McpClient.Trusted.{WritesTo, connect-WritesTo}
use telegram_mcpvscode.TgHook.Question.{QOption, Question}
use telegram_mcpvscode.TgHook.Question
use telegram_mcpvscode.TgHook.LocalInput.{System}
use telegram_mcpvscode.TgHook.Run.{run_ask, run_stop}
use telegram_mcpvscode.TgHook.Waiting.{Outside, Event, timed_out, local_tick, poll_tick}
use telegram_mcpvscode.TgHook.Run.Asking.{AskJustified, run_ask-AskJustified}
use telegram_mcpvscode.TgHook.Run.Stopping.{StopJustified, run_stop-StopJustified}
use telegram_mcpvscode.TgHook.Wake.{split_message}
use telegram_mcpvscode.TgHook.Wake.Chunks.{Shows, split_message-Shows}
use telegram_mcpvscode.Tests.Hook.{rows_only, envelope, history_rows, nothing}

abbrev args : CliArgs
args = record {
  chat = "me";
  message = none;
  retry_message = some "later";
  timeout_secs = 60;
  poll_secs = 5;
  release_on_local_input = true;
  local_input_threshold_secs = 2;
}

parse_from-to_argv_example : parse_from (to_argv args) ≡ parsed args
parse_from-to_argv_example =
    parse_from-to_argv args (omega arith, omega arith, omega arith, omega arith, omega arith)

split_message-Shows_example : Shows 4 "one\ntwo, three" (split_message "one\ntwo, three" 4)
split_message-Shows_example = split_message-Shows "one\ntwo, three" 4 (omega arith)

abbrev server : DiscoveryRecord
server = record {
  pid = 500;
  ppid = 200;
  pipe = "p";
  token = "t";
  session_id = none;
  started_at = "2026-01-01T00:00:00Z";
}

abbrev other_server : DiscoveryRecord
other_server = record server { pid = 501; ppid = 900 }

pick_record-IsPick_example :
    IsPick
      (other_server ∷ server ∷ [])
      (some "s")
      (220 ∷ 200 ∷ [])
      (pick_record (other_server ∷ server ∷ []) (some "s") (220 ∷ 200 ∷ []))
pick_record-IsPick_example =
    pick_record-IsPick (other_server ∷ server ∷ []) (some "s") (220 ∷ 200 ∷ [])

abbrev any_write : List Line → Bool
any_write written = true

connect-WritesTo_example :
    WritesTo rows_only any_write "1" "t"
      (busy ∷ opened (some 500) ∷ [])
      500
      (connect rows_only any_write "1" "t" 500 (busy ∷ opened (some 500) ∷ []) [])
connect-WritesTo_example =
    connect-WritesTo rows_only any_write "1" "t" 500 (busy ∷ opened (some 500) ∷ []) []

abbrev blue : QOption
blue = record { label = "Blue"; description = some "cool" }

abbrev red : QOption
red = record { label = "Red"; description = none }

abbrev color : Question
color = record {
  header = some "Color";
  text = "Which?";
  multi_select = false;
  options = red ∷ blue ∷ [];
}

abbrev size : Question
size = record {
  header = none;
  text = "How large?";
  multi_select = true;
  options = record { label = "Ten"; description = none } ∷ [];
}

-- Reads `sent` as the answer to a message, `hello` as the first response of the server, and every
-- other text as the rows.
abbrev read : String → Option Value
read s =
    if str_eq s "sent"
    then some (obj (field "message_id" (num (pos 10)) end))
    else if str_eq s "hello"
    then some (obj (field "id" (num (pos 1)) end))
    else some history_rows

pub nothing_written : (v : Value) (s : String) → nothing ≡ some s → read s ≡ some v
nothing_written v s h = cc

abbrev sent_or_rows : Serde
sent_or_rows = record {
  to_string = λ v. none;
  from_str = read;
  from_str-to_string = λ v s _ h. nothing_written v s h;
}

abbrev receipt : Value
receipt = obj (field "content" (arr (cons (obj (field "text" (str "sent") end)) nil)) end)

abbrev outside : Outside
outside = record {
  serde = sent_or_rows;
  from_value = λ v. some (record {
    session_id = none;
    transcript_path = none;
    stop_hook_active = none;
    last_assistant_message = some "Done.";
  });
  from_slice = λ text. some server;
  directory = some (record { path = "500.json"; content = some "{}" } ∷ []);
  process_alive = λ pid. true;
  env_session = none;
  version = "1";
  attempts = λ pipe. busy ∷ opened (some 500) ∷ [];
  incoming = λ pipe. some "hello" ∷ [];
  accepts = any_write;
  send = λ text. some receipt;
}

abbrev asked : Value
asked = obj (
    field "hook_event_name" (str "PreToolUse") (
      field "tool_name" (str "AskUserQuestion") (
        field "tool_input"
          (obj (
            field "questions"
              (arr (
                cons
                  (obj (
                    field "question" (str "Which?")
                      (field "options" (arr (cons (obj (field "label" (str "Red") end)) nil)) end)))
                  nil))
              end))
          end)))

abbrev away : System
away = record {
  last_input = none;
  tick_count = 0;
  foreground_pid = 0;
  process_snapshot = λ pid. none;
}

abbrev waiting : List Event
waiting =
    local_tick away
    ∷ poll_tick (λ baseline. none)
    ∷ poll_tick (λ baseline. some envelope)
    ∷ timed_out
    ∷ []

run_ask-AskJustified_example :
    All
      (AskJustified args outside asked waiting)
      (run_ask args outside asked (220 ∷ 200 ∷ []) away waiting).effects
run_ask-AskJustified_example = run_ask-AskJustified args outside asked (220 ∷ 200 ∷ []) waiting away

run_stop-StopJustified_example :
    All
      (StopJustified args outside asked (220 ∷ 200 ∷ []) waiting)
      (run_stop args outside asked (220 ∷ 200 ∷ []) away waiting).effects
run_stop-StopJustified_example =
    run_stop-StopJustified args outside asked (220 ∷ 200 ∷ []) waiting away
