-- ===== src/TgHook/Run.antt =====
-- The two flows of the hook: crates/tg-hook/src/main.rs, with the messages of output.rs. What
-- happens while the hook waits is a list of events; what the hook does is a list of effects.
-- The discovery directory, the pipe and the answers of the server are parameters.
pub mod Asking
pub mod Blocking
pub mod Stopping
use telegram_mcpvscode.Prelude.{
  String, ℕ, ℤ, Option, none, some, List, [], ◌∷◌, ◌++◌, map, if◌then◌else◌, str_eq,
}
use telegram_mcpvscode.Prelude.Options.{◌>>=◌, or_else, unwrap_or}
use telegram_mcpvscode.Prelude.Trim.{trim}
use telegram_mcpvscode.Json.{Value, get, as_str}
use telegram_mcpvscode.TgHook.Cli.{CliArgs}
use telegram_mcpvscode.TgHook.Poll.{Reply, parse_replies}
use telegram_mcpvscode.TgHook.LocalInput.{System, LocalInputWatcher, new, user_active}
use telegram_mcpvscode.LocalPipe.Discovery.{DiscoveryRecord}
use telegram_mcpvscode.TgHook.Discovery.{load_all, pick_record}
use telegram_mcpvscode.TgHook.McpClient.{connect}
use telegram_mcpvscode.TgHook.Question.{Question, from_tool_input, render, answer_from_reply}
use telegram_mcpvscode.TgHook.Wake.{split_message, telegram_max_message_bytes, extract_baseline}
use telegram_mcpvscode.TgHook.Waiting.{
  default_retry_message, default_wakeup_message, default_ack_message, stop_takeover_message,
  ask_takeover_message, Effect, Event, Result, Next, stops, after, wait, local_threshold_ms,
  reason_of, reply_text, StopInput, Outside, is_str, is_ask, status, poll_failed, sent, block,
  tool_block, released, failed, exited, ctrl_c, timed_out, local_tick, poll_tick, go_on, ends,
}

module _ (cli : CliArgs) (outside : Outside) where
  abbrev loaded : Option (List DiscoveryRecord)
  loaded = do
    l ← load_all outside.from_slice outside.process_alive outside.directory
    some l.records

  abbrev connected : DiscoveryRecord → Option DiscoveryRecord
  connected r = do
    done ←
        (connect outside.serde outside.accepts outside.version r.token r.pid
          (outside.attempts r.pipe) (outside.incoming r.pipe)).0
    some r

  -- Without a record none is picked, and either is an error.
  unfoldable pub connect_to_server : Option String → List ℕ → Option DiscoveryRecord
  unfolding load_all pick_record connect
  connect_to_server session_id_env pid_chain = do
    records ← loaded
    record' ← pick_record records session_id_env pid_chain
    connected record'

  unfoldable pub poll_once : ℤ → (ℤ → Option Value) → Option (List Reply)
  unfolding parse_replies
  poll_once baseline answer = answer baseline >>= parse_replies outside.serde

  abbrev pub stop_polled : Option (List Reply) → LocalInputWatcher → Next
  stop_polled none w = go_on w (poll_failed ∷ [])
  stop_polled (some []) w = go_on w []
  stop_polled (some (r ∷ rs)) w =
      ends released (sent default_ack_message ∷ block (reason_of (r ∷ rs)) ∷ [])

  -- The branch of the local tick, which is off without the option.
  abbrev pub local_ticked : List Effect → System → LocalInputWatcher → Next
  local_ticked effects system w =
      let (active, w') = user_active system w in
      if cli.release_on_local_input
      then if active then ends released effects else go_on w' []
      else go_on w []

  unfoldable pub stop_step : ℤ → Event → LocalInputWatcher → Next
  unfolding poll_once reason_of user_active
  stop_step baseline ctrl_c w = ends released (status "tg-hook: interrupted, releasing Claude" ∷ [])
  stop_step baseline timed_out w =
      ends released (block (unwrap_or default_retry_message cli.retry_message) ∷ [])
  stop_step baseline (local_tick system) w =
      local_ticked
        (sent stop_takeover_message ∷ status "tg-hook: local input detected, releasing Claude" ∷ [])
        system w
  stop_step baseline (poll_tick answer) w = stop_polled (poll_once baseline answer) w

  abbrev pub ask_polled : List Question → Option (List Reply) → LocalInputWatcher → Next
  ask_polled questions none w = go_on w (poll_failed ∷ [])
  ask_polled questions (some []) w = go_on w []
  ask_polled questions (some (r ∷ rs)) w = ends exited (
      sent default_ack_message
      ∷ tool_block (answer_from_reply questions (reply_text (r ∷ rs)))
      ∷ [])

  unfoldable pub ask_step : List Question → ℤ → Event → LocalInputWatcher → Next
  unfolding poll_once reply_text answer_from_reply user_active
  ask_step questions baseline ctrl_c w =
      ends released (status "tg-hook: interrupted — AskUserQuestion stays in-app" ∷ [])
  ask_step questions baseline timed_out w =
      ends released (status "tg-hook: no Telegram reply — AskUserQuestion stays in-app" ∷ [])
  ask_step questions baseline (local_tick system) w =
      local_ticked
        (sent ask_takeover_message
          ∷ status "tg-hook: local input — AskUserQuestion stays in-app"
          ∷ [])
        system w
  ask_step questions baseline (poll_tick answer) w =
      ask_polled questions (poll_once baseline answer) w

  -- The options that the two flows start with, and the hook that waits.
  abbrev pub watcher : List ℕ → LocalInputWatcher
  watcher chain = new chain (local_threshold_ms cli)

  abbrev pub send_wakeup : String → Option ℤ
  send_wakeup text = outside.send text >>= extract_baseline outside.serde

  abbrev pub chunks_sent : Option String → List Effect
  chunks_sent none = []
  chunks_sent (some text) =
      let trimmed = trim text in
      if str_eq trimmed "" then [] else map sent (split_message trimmed telegram_max_message_bytes)

  abbrev pub fail_with : List Effect → Result
  fail_with effects = stops failed effects

  -- After the start: the wakeup is sent, and the hook waits.
  abbrev pub stop_sent : Option String → List Event → LocalInputWatcher → String → Option ℤ → Result
  stop_sent last_message events w message none = fail_with (sent message ∷ [])
  stop_sent last_message events w message (some baseline) =
      after
        (sent message ∷ chunks_sent last_message
          ++ (status "Waiting on keyboard interrupt or external message" ∷ []))
        (wait (stop_step baseline) events w)

  abbrev pub stop_connected :
      Option String → List Event → LocalInputWatcher → Option DiscoveryRecord → Result
  stop_connected last_message events w none = fail_with []
  stop_connected last_message events w (some r) =
      let message = unwrap_or default_wakeup_message cli.message in
      stop_sent last_message events w message (send_wakeup message)

  -- The user who is at the keyboard already is not sent anything.
  abbrev pub unless_active :
      String → System → LocalInputWatcher → (LocalInputWatcher → Result) → Result
  unless_active present system w go =
      let (active, w') = user_active system w in
      if cli.release_on_local_input
      then if active then stops released (status present ∷ []) else go w'
      else go w

  abbrev pub stop_parsed : Option StopInput → List ℕ → System → List Event → Result
  stop_parsed none chain system events = fail_with []
  stop_parsed (some input) chain system events =
      unless_active "tg-hook: local input detected at startup, skipping Telegram wakeup" system
        (watcher chain)
        (λ w.
          stop_connected input.last_assistant_message events w
            (connect_to_server (or_else input.session_id outside.env_session) chain))

  unfoldable pub run_stop : Value → List ℕ → System → List Event → Result
  unfolding wait stop_step connect_to_server local_threshold_ms trim split_message extract_baseline
      new user_active
  run_stop input chain system events = stop_parsed (outside.from_value input) chain system events

  abbrev pub ask_sent : List Question → List Event → LocalInputWatcher → String → Option ℤ → Result
  ask_sent questions events w message none = fail_with (sent message ∷ [])
  ask_sent questions events w message (some baseline) =
      after (sent message ∷ status "Question sent to Telegram — waiting for your reply" ∷ [])
        (wait (ask_step questions baseline) events w)

  abbrev pub ask_connected :
      List Question → List Event → LocalInputWatcher → Option DiscoveryRecord → Result
  ask_connected questions events w none = fail_with []
  ask_connected questions events w (some r) =
      let message = render questions in ask_sent questions events w message (send_wakeup message)

  abbrev pub session_of : Value → Option String
  session_of input = or_else (get input "session_id" >>= as_str) outside.env_session

  abbrev pub ask_parsed : Option (List Question) → Value → List ℕ → System → List Event → Result
  ask_parsed none input chain system events = fail_with []
  ask_parsed (some questions) input chain system events =
      unless_active "tg-hook: local input at startup — AskUserQuestion stays in-app" system
        (watcher chain)
        (λ w. ask_connected questions events w (connect_to_server (session_of input) chain))

  unfoldable pub run_ask : Value → List ℕ → System → List Event → Result
  unfolding wait ask_step connect_to_server local_threshold_ms from_tool_input render
      extract_baseline new user_active
  run_ask input chain system events =
      if is_ask input
      then ask_parsed (get input "tool_input" >>= from_tool_input) input chain system events
      else stops released []

  -- Dispatch on the event in the hook's input.
  unfoldable pub run : Value → List ℕ → System → List Event → Result
  unfolding run_ask run_stop
  run input chain system events =
      if is_str "PreToolUse" (get input "hook_event_name" >>= as_str)
      then run_ask input chain system events
      else run_stop input chain system events
