-- ===== src/TgHook/Run/Blocking.antt =====
-- What the hook may do while it waits, and the branches that both flows share.
use telegram_mcpvscode.Prelude.{String, List, [], ◌∷◌, ◌⊎◌, inl, inr, All, All-append, if-cases}
use telegram_mcpvscode.Prelude.Lists.{All-mono}
use telegram_mcpvscode.TgHook.Cli.{CliArgs}
use telegram_mcpvscode.TgHook.LocalInput.{System, LocalInputWatcher, user_active}
use telegram_mcpvscode.TgHook.Run.{local_ticked, unless_active}
use telegram_mcpvscode.TgHook.Waiting.{
  Effect, status, block, tool_block, Event, local_tick, Result, Next, released, go_on, ends, wait,
  Outside, stops, go_on_with,
}

abbrev pub Any : {A : Type 0} → (A → Type 0) → List A → Type 0
Any P [] = ⊥
Any P (x ∷ xs) = P x ⊎ Any P xs

-- Neither blocks Claude.
abbrev pub IsHarmless : Effect → Type 0
IsHarmless (block _) = ⊥
IsHarmless (tool_block _) = ⊥
IsHarmless _ = Unit

-- An effect is harmless, or one of the events allows it.
abbrev pub IsJustified : (Effect → Event → Type 0) → List Event → Effect → Type 0
IsJustified Allows events effect = IsHarmless effect ⊎ Any (Allows effect) events

abbrev pub StepJustified : (Effect → Event → Type 0) → Event → Next → Type 0
StepJustified Allows e (go_on _ effects) = All (IsJustified Allows (e ∷ [])) effects
StepJustified Allows e (ends _ effects) = All (IsJustified Allows (e ∷ [])) effects

module _ (Allows : Effect → Event → Type 0) where
  IsJustified-first :
      (e : Event) (es : List Event) (f : Effect)
      → IsJustified Allows (e ∷ []) f
      → IsJustified Allows (e ∷ es) f
  IsJustified-first e es f (inl h) = inl h
  IsJustified-first e es f (inr (inl h)) = inr (inl h)
  IsJustified-first e es f (inr (inr h)) = absurd h

  IsJustified-later :
      (e : Event) (es : List Event) (f : Effect)
      → IsJustified Allows es f
      → IsJustified Allows (e ∷ es) f
  IsJustified-later e es f (inl h) = inl h
  IsJustified-later e es f (inr h) = inr (inr h)

  pub wait-IsJustified :
      (step : Event → LocalInputWatcher → Next)
      → ((e : Event) (w : LocalInputWatcher) → StepJustified Allows e (step e w))
      → (es : List Event) (w : LocalInputWatcher)
      → All (IsJustified Allows es) (wait step es w).effects
  unfolding wait
  wait-IsJustified step h [] w = tt
  wait-IsJustified step h (e ∷ es) w = go (step e w) (h e w) (λ w'. wait-IsJustified step h es w')
    where
      go :
          (next : Next)
          → StepJustified Allows e next
          → ((w' : LocalInputWatcher) → All (IsJustified Allows es) (wait step es w').effects)
          → All (IsJustified Allows (e ∷ es)) (go_on_with (λ w'. wait step es w') next).effects
      go (go_on w' effects) now rest =
          All-append _ effects _ (All-mono _ _ effects (IsJustified-first e es) now)
            (All-mono _ _ _ (IsJustified-later e es) (rest w'))
      go (ends ending effects) now rest = All-mono _ _ effects (IsJustified-first e es) now

  -- What is done before the wait is harmless.
  pub harmless :
      (es : List Event) (effects : List Effect)
      → All IsHarmless effects
      → All (IsJustified Allows es) effects
  harmless es effects h = All-mono IsHarmless _ effects (λ f. inl) h

module _ (cli : CliArgs) (outside : Outside) where
  pub local_ticked-IsJustified :
      (Allows : Effect → Event → Type 0) (effects : List Effect) (system : System)
      (w : LocalInputWatcher)
      → All IsHarmless effects
      → StepJustified Allows (local_tick system) (local_ticked cli outside effects system w)
  local_ticked-IsJustified Allows effects system w h =
      if-cases (StepJustified Allows (local_tick system)) cli.release_on_local_input
        (λ on.
          if-cases (StepJustified Allows (local_tick system)) ((user_active system w).0)
            (λ active. harmless Allows (local_tick system ∷ []) effects h) (λ away. tt))
        (λ off. tt)

  pub unless_active-Sound :
      (P : Result → Type 0) (present : String) (system : System) (w : LocalInputWatcher)
      (go : LocalInputWatcher → Result)
      → P (stops released (status present ∷ []))
      → ((w' : LocalInputWatcher) → P (go w'))
      → P (unless_active cli outside present system w go)
  unless_active-Sound P present system w go stopped further =
      if-cases P cli.release_on_local_input
        (λ on.
          if-cases P ((user_active system w).0) (λ active. stopped)
            (λ away. further ((user_active system w).1)))
        (λ off. further w)
