-- ===== src/TgHook/Run/Asking.antt =====
-- What lets the hook block the `AskUserQuestion` tool.
use telegram_mcpvscode.Prelude.{
  ℕ, ℤ, true, Option, none, some, List, [], ◌∷◌, ◌≡◌, refl, ◌⊎◌, inl, inr, All, if-cases,
}
use telegram_mcpvscode.Prelude.Lists.{All-mono}
use telegram_mcpvscode.Prelude.Options.{◌>>=◌}
use telegram_mcpvscode.Json.{Value, get}
use telegram_mcpvscode.TgHook.Cli.{CliArgs}
use telegram_mcpvscode.TgHook.Poll.{Reply}
use telegram_mcpvscode.TgHook.LocalInput.{System, LocalInputWatcher}
use telegram_mcpvscode.LocalPipe.Discovery.{DiscoveryRecord}
use telegram_mcpvscode.TgHook.Question.{Question, from_tool_input, render, answer_from_reply}
use telegram_mcpvscode.TgHook.Run.{
  poll_once, ask_step, ask_polled, connect_to_server, send_wakeup, run_ask, ask_connected, ask_sent,
  ask_parsed, watcher, session_of,
}
use telegram_mcpvscode.TgHook.Waiting.{
  Effect, tool_block, Event, ctrl_c, timed_out, local_tick, poll_tick, Result, reply_text, Outside,
  is_ask,
}
use telegram_mcpvscode.TgHook.Run.Blocking.{
  Any, IsHarmless, IsJustified, StepJustified, wait-IsJustified, local_ticked-IsJustified,
  unless_active-Sound,
}

module _ (cli : CliArgs) (outside : Outside) where
  -- A reply to the question was read, and the tool is blocked with the answer that it gives.
  abbrev pub AskAllows : List Question → ℤ → Effect → Event → Type 0
  AskAllows questions baseline (tool_block reason) (poll_tick answer) =
      (r : Reply) × (rs : List Reply) × (poll_once cli outside baseline answer ≡ some (r ∷ rs))
      × (reason ≡ answer_from_reply questions (reply_text (r ∷ rs)))
  AskAllows questions baseline effect event = ⊥

  ask_step-IsJustified :
      (questions : List Question) (baseline : ℤ) (e : Event) (w : LocalInputWatcher)
      → StepJustified (AskAllows questions baseline) e (ask_step cli outside questions baseline e w)
  unfolding ask_step
  ask_step-IsJustified questions baseline ctrl_c w = (inl tt, tt)
  ask_step-IsJustified questions baseline timed_out w = (inl tt, tt)
  ask_step-IsJustified questions baseline (local_tick system) w =
      local_ticked-IsJustified cli outside (AskAllows questions baseline) _ system w (tt, (tt, tt))
  ask_step-IsJustified questions baseline (poll_tick answer) w =
      go (poll_once cli outside baseline answer) refl
    where
      go :
          (o : Option (List Reply))
          → poll_once cli outside baseline answer ≡ o
          → StepJustified
              (AskAllows questions baseline)
              (poll_tick answer)
              (ask_polled cli outside questions o w)
      go none e = (inl tt, tt)
      go (some []) e = tt
      go (some (r ∷ rs)) e = (inl tt, (inr (inl (r, rs, e, refl)), tt))

  -- The question of the call was sent, and after that a reply answers it.
  abbrev pub AskJustified : Value → List Event → Effect → Type 0
  AskJustified input events effect =
      IsHarmless effect
      ⊎ ((questions : List Question) × (baseline : ℤ) × (is_ask input ≡ true)
          × ((get input "tool_input" >>= from_tool_input) ≡ some questions)
          × (send_wakeup cli outside (render questions) ≡ some baseline)
          × Any (AskAllows questions baseline effect) events)

  abbrev AskSound : Value → List Event → Result → Type 0
  AskSound input events r = All (AskJustified input events) r.effects

  module _ (input : Value) (chain : List ℕ) (events : List Event) where
    ask_sent-Sound :
        (questions : List Question) (w : LocalInputWatcher) (o : Option ℤ)
        → is_ask input ≡ true
        → (get input "tool_input" >>= from_tool_input) ≡ some questions
        → send_wakeup cli outside (render questions) ≡ o
        → AskSound input events (ask_sent cli outside questions events w (render questions) o)
    ask_sent-Sound questions w none named parsed e = (inl tt, tt)
    ask_sent-Sound questions w (some baseline) named parsed e = (
      inl tt,
      (
        inl tt,
        All-mono (IsJustified (AskAllows questions baseline) events) (AskJustified input events) _
            (λ f. justified f)
            (wait-IsJustified (AskAllows questions baseline)
              (ask_step cli outside questions baseline) (ask_step-IsJustified questions baseline)
              events w),
      ),
    )
      where
        justified :
            (f : Effect)
            → IsJustified (AskAllows questions baseline) events f
            → AskJustified input events f
        justified f (inl h) = inl h
        justified f (inr h) = inr (questions, baseline, named, parsed, e, h)

    ask_connected-Sound :
        (questions : List Question) (w : LocalInputWatcher) (o : Option DiscoveryRecord)
        → is_ask input ≡ true
        → (get input "tool_input" >>= from_tool_input) ≡ some questions
        → AskSound input events (ask_connected cli outside questions events w o)
    ask_connected-Sound questions w none named parsed = tt
    ask_connected-Sound questions w (some r) named parsed =
        ask_sent-Sound questions w (send_wakeup cli outside (render questions)) named parsed refl

    ask_parsed-Sound :
        (system : System) (o : Option (List Question))
        → is_ask input ≡ true
        → (get input "tool_input" >>= from_tool_input) ≡ o
        → AskSound input events (ask_parsed cli outside o input chain system events)
    ask_parsed-Sound system none named parsed = tt
    ask_parsed-Sound system (some questions) named parsed =
        unless_active-Sound cli outside (AskSound input events) _ system (watcher cli outside chain)
          (λ w'.
            ask_connected cli outside questions events w'
              (connect_to_server cli outside (session_of cli outside input) chain))
          (inl tt, tt)
          (λ w'.
            ask_connected-Sound questions w'
              (connect_to_server cli outside (session_of cli outside input) chain) named parsed)

    -- Whatever events come while the hook waits, and whatever the server and the system answer, an
    -- effect of `run_ask` either blocks nothing, or it is the tool block for a call of
    -- `AskUserQuestion` whose questions were parsed and sent, and a poll after that read replies
    -- and the reason is the answer that these give.
    pub run_ask-AskJustified :
        (system : System)
        → All (AskJustified input events) (run_ask cli outside input chain system events).effects
    unfolding run_ask
    run_ask-AskJustified system =
        if-cases (AskSound input events) (is_ask input)
          (λ named. ask_parsed-Sound system (get input "tool_input" >>= from_tool_input) named refl)
          (λ other. tt)
