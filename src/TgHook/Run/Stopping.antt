-- ===== src/TgHook/Run/Stopping.antt =====
-- What lets the hook keep Claude going at a stop.
use telegram_mcpvscode.Prelude.{
  String, ℕ, ℤ, Option, none, some, List, [], ◌∷◌, ◌++◌, ◌≡◌, refl, ◌⊎◌, inl, inr, All, All-append,
  if-cases, map, str_eq,
}
use telegram_mcpvscode.Prelude.Lists.{All-mono}
use telegram_mcpvscode.Prelude.Options.{or_else, unwrap_or}
use telegram_mcpvscode.Prelude.Trim.{trim}
use telegram_mcpvscode.Json.{Value}
use telegram_mcpvscode.TgHook.Cli.{CliArgs}
use telegram_mcpvscode.TgHook.Poll.{Reply}
use telegram_mcpvscode.TgHook.LocalInput.{System, LocalInputWatcher}
use telegram_mcpvscode.LocalPipe.Discovery.{DiscoveryRecord}
use telegram_mcpvscode.TgHook.Wake.{split_message, telegram_max_message_bytes}
use telegram_mcpvscode.TgHook.Run.{
  poll_once, stop_step, stop_polled, connect_to_server, send_wakeup, chunks_sent, run_stop,
  stop_connected, stop_sent, stop_parsed, watcher,
}
use telegram_mcpvscode.TgHook.Waiting.{
  Effect, sent, block, Event, ctrl_c, timed_out, local_tick, poll_tick, Result, reason_of, Outside,
  default_retry_message, default_wakeup_message, StopInput,
}
use telegram_mcpvscode.TgHook.Run.Blocking.{
  Any, IsHarmless, IsJustified, StepJustified, wait-IsJustified, local_ticked-IsJustified,
  unless_active-Sound,
}

module _ (cli : CliArgs) (outside : Outside) where
  -- The time is up, or a reply was read, and Claude goes on with the one text or the other.
  abbrev pub StopAllows : ℤ → Effect → Event → Type 0
  StopAllows baseline (block reason) timed_out =
      reason ≡ unwrap_or default_retry_message cli.retry_message
  StopAllows baseline (block reason) (poll_tick answer) =
      (r : Reply) × (rs : List Reply) × (poll_once cli outside baseline answer ≡ some (r ∷ rs))
      × (reason ≡ reason_of (r ∷ rs))
  StopAllows baseline effect event = ⊥

  stop_step-IsJustified :
      (baseline : ℤ) (e : Event) (w : LocalInputWatcher)
      → StepJustified (StopAllows baseline) e (stop_step cli outside baseline e w)
  unfolding stop_step
  stop_step-IsJustified baseline ctrl_c w = (inl tt, tt)
  stop_step-IsJustified baseline timed_out w = (inr (inl refl), tt)
  stop_step-IsJustified baseline (local_tick system) w =
      local_ticked-IsJustified cli outside (StopAllows baseline) _ system w (tt, (tt, tt))
  stop_step-IsJustified baseline (poll_tick answer) w =
      go (poll_once cli outside baseline answer) refl
    where
      go :
          (o : Option (List Reply))
          → poll_once cli outside baseline answer ≡ o
          → StepJustified (StopAllows baseline) (poll_tick answer) (stop_polled cli outside o w)
      go none e = (inl tt, tt)
      go (some []) e = tt
      go (some (r ∷ rs)) e = (inl tt, (inr (inl (r, rs, e, refl)), tt))

  module _ (input : Value) (chain : List ℕ) (events : List Event) where
    -- The wakeup was sent, and after that the time is up or a reply came.
    abbrev pub StopJustified : Effect → Type 0
    StopJustified effect =
        IsHarmless effect
        ⊎ ((baseline : ℤ) × (send_wakeup cli outside (unwrap_or default_wakeup_message cli.message)
              ≡ some baseline)
            × Any (StopAllows baseline effect) events)

    abbrev StopSound : Result → Type 0
    StopSound r = All StopJustified r.effects

    All-sent : (chunks : List String) → All StopJustified (map sent chunks)
    All-sent [] = tt
    All-sent (c ∷ cs) = (inl tt, All-sent cs)

    chunks_sent-Sound : (text : Option String) → All StopJustified (chunks_sent cli outside text)
    chunks_sent-Sound none = tt
    chunks_sent-Sound (some text) =
        if-cases (All StopJustified) (str_eq (trim text) "") (λ empty. tt)
          (λ shown. All-sent (split_message (trim text) telegram_max_message_bytes))

    stop_sent-Sound :
        (text : Option String) (w : LocalInputWatcher) (o : Option ℤ)
        → send_wakeup cli outside (unwrap_or default_wakeup_message cli.message) ≡ o
        → StopSound
            (stop_sent cli outside text events w (unwrap_or default_wakeup_message cli.message) o)
    stop_sent-Sound text w none e = (inl tt, tt)
    stop_sent-Sound text w (some baseline) e = (
      inl tt,
      All-append StopJustified (chunks_sent cli outside text ++ _) _
          (All-append StopJustified (chunks_sent cli outside text) _ (chunks_sent-Sound text)
            (inl tt, tt))
          (All-mono (IsJustified (StopAllows baseline) events) StopJustified _ (λ f. justified f)
            (wait-IsJustified (StopAllows baseline) (stop_step cli outside baseline)
              (stop_step-IsJustified baseline) events w)),
    )
      where
        justified : (f : Effect) → IsJustified (StopAllows baseline) events f → StopJustified f
        justified f (inl h) = inl h
        justified f (inr h) = inr (baseline, e, h)

    stop_connected-Sound :
        (text : Option String) (w : LocalInputWatcher) (o : Option DiscoveryRecord)
        → StopSound (stop_connected cli outside text events w o)
    stop_connected-Sound text w none = tt
    stop_connected-Sound text w (some r) =
        stop_sent-Sound text w
          (send_wakeup cli outside (unwrap_or default_wakeup_message cli.message)) refl

    stop_parsed-Sound :
        (system : System) (o : Option StopInput)
        → StopSound (stop_parsed cli outside o chain system events)
    stop_parsed-Sound system none = tt
    stop_parsed-Sound system (some i) =
        unless_active-Sound cli outside StopSound _ system (watcher cli outside chain)
          (λ w'.
            stop_connected cli outside i.last_assistant_message events w'
              (connect_to_server cli outside (or_else i.session_id outside.env_session) chain))
          (inl tt, tt)
          (λ w'.
            stop_connected-Sound i.last_assistant_message w'
              (connect_to_server cli outside (or_else i.session_id outside.env_session) chain))

    -- Whatever events come while the hook waits, and whatever the server and the system answer, an
    -- effect of `run_stop` either blocks nothing, or the wakeup was sent and the effect is the
    -- block with the retry message at the timeout, or the block with the text of the replies that a
    -- poll after the wakeup has read.
    pub run_stop-StopJustified :
        (system : System)
        → All StopJustified (run_stop cli outside input chain system events).effects
    unfolding run_stop
    run_stop-StopJustified system = stop_parsed-Sound system (outside.from_value input)
