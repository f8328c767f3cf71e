-- ===== src/TgHook/Cli/Printed.antt =====
-- The command line that a settings file gives, and what is read from it.
use telegram_mcpvscode.Prelude.{
  String, ◌≤◌, ◌<◌, ◌^◌, Bool, true, false, Option, none, some, List, [], ◌∷◌, ◌≡◌, refl, ap, ◌∙◌,
  arith,
}
use telegram_mcpvscode.Prelude.Text.{show_ℕ, parse_u64-show_ℕ}
use telegram_mcpvscode.TgHook.Cli.{
  chat, message, retry_message, timeout_secs, poll_secs, local_input_threshold_secs, valued,
  arguments, Valued, arm_of, apply, ◌>>=◌, CliArgs, Flags, parsed, defaults, parse_flags, set,
  checked, parse_from,
}

abbrev option_flag : String → Option String → List String → List String
option_flag flag none rest = rest
option_flag flag (some v) rest = flag ∷ v ∷ rest

abbrev switch : String → Bool → List String
switch flag false = []
switch flag true = flag ∷ []

abbrev numbers : CliArgs → List String → List String
numbers args rest =
    "--timeout-secs"
    ∷ show_ℕ args.timeout_secs
    ∷ "--poll-secs"
    ∷ show_ℕ args.poll_secs
    ∷ "--local-input-threshold-secs"
    ∷ show_ℕ args.local_input_threshold_secs
    ∷ rest

-- Every option of the command line, in one order.
unfoldable pub to_argv : CliArgs → List String
to_argv args =
    "tg-hook"
    ∷ "--chat"
    ∷ args.chat
    ∷ option_flag "--message" args.message (
        option_flag "--retry-message" args.retry_message
          (numbers args (switch "--release-on-local-input" args.release_on_local_input)))

-- What `parse_from` lets through: no interval is zero.
abbrev pub IsValid : CliArgs → Type 0
IsValid args =
    (1 ≤ args.timeout_secs)
    × (args.timeout_secs < 2 ^ 64)
    × (1 ≤ args.poll_secs)
    × (args.poll_secs < 2 ^ 64)
    × (args.local_input_threshold_secs < 2 ^ 64)

abbrev with_numbers : CliArgs → Flags → Flags
with_numbers args f = record f {
  timeout_secs = args.timeout_secs;
  poll_secs = args.poll_secs;
  local_input_threshold_secs = args.local_input_threshold_secs;
}

-- A flag with its value is one round of the loop.
valued_flag :
    (a v : String) (rest : List String) (flag : Valued) (f f' : Flags)
    → arm_of a ≡ valued flag
    → set flag v f ≡ parsed f'
    → parse_flags (a ∷ v ∷ rest) f ≡ parse_flags rest f'
unfolding parse_flags
valued_flag a v rest flag f f' is_flag is_set = rw (is_flag, is_set, parse_flags) refl

numbers_read :
    (args : CliArgs) (rest : List String) (f : Flags)
    → IsValid args
    → parse_flags (numbers args rest) f ≡ parse_flags rest (with_numbers args f)
unfolding arm_of set
numbers_read args rest f (t1, t2, p1, p2, l2) =
    valued_flag _ _ _ timeout_secs f f1 refl (rw (parse_u64-show_ℕ args.timeout_secs t2) refl)
    ∙ valued_flag _ _ _ poll_secs f1 f2 refl (rw (parse_u64-show_ℕ args.poll_secs p2) refl)
    ∙ valued_flag _ _ _ local_input_threshold_secs f2 (with_numbers args f) refl
        (rw (parse_u64-show_ℕ args.local_input_threshold_secs l2) refl)
  where
    f1 : Flags
    f1 = record f { timeout_secs = args.timeout_secs }

    f2 : Flags
    f2 = record f1 { poll_secs = args.poll_secs }

option_read :
    (a : String) (flag : Valued) (o : Option String) (rest : List String) (f f' : Flags)
    → arm_of a ≡ valued flag
    → ((v : String) → o ≡ some v → set flag v f ≡ parsed f')
    → (o ≡ none → f ≡ f')
    → parse_flags (option_flag a o rest) f ≡ parse_flags rest f'
option_read a flag none rest f f' is_flag is_set is_same =
    ap (λ g. parse_flags rest g) (is_same refl)
option_read a flag (some v) rest f f' is_flag is_set is_same =
    valued_flag a v rest flag f f' is_flag (is_set v refl)

switch_read :
    (b : Bool) (f : Flags)
    → f.release_on_local_input ≡ false
    → parse_flags (switch "--release-on-local-input" b) f
      ≡ parsed (record f { release_on_local_input = b })
unfolding parse_flags arm_of apply
switch_read false f h = ap (λ b. parsed (record f { release_on_local_input = b })) h
switch_read true f h = refl

abbrev read_flags : CliArgs → Flags
read_flags args = record {
  chat = some args.chat;
  message = args.message;
  retry_message = args.retry_message;
  timeout_secs = args.timeout_secs;
  poll_secs = args.poll_secs;
  release_on_local_input = args.release_on_local_input;
  local_input_threshold_secs = args.local_input_threshold_secs;
}

checked-read_flags : (args : CliArgs) → IsValid args → checked (read_flags args) ≡ parsed args
checked-read_flags args (t1, t2, p1, p2, l2) = ground arith

-- For options whose two intervals are at least 1 and whose numbers are below 2 ^ 64, the command
-- line that spells them out is parsed to these options.
pub parse_from-to_argv : (args : CliArgs) → IsValid args → parse_from (to_argv args) ≡ parsed args
unfolding parse_from to_argv arm_of set
parse_from-to_argv args valid = ap (λ p. p >>= checked) flags_read ∙ checked-read_flags args valid
  where
    f0 : Flags
    f0 = record defaults { chat = some args.chat }

    f1 : Flags
    f1 = record f0 { message = args.message }

    f2 : Flags
    f2 = record f1 { retry_message = args.retry_message }

    tail2 : List String
    tail2 = numbers args (switch "--release-on-local-input" args.release_on_local_input)

    tail1 : List String
    tail1 = option_flag "--retry-message" args.retry_message tail2

    flags_read : parse_flags (arguments (to_argv args)) defaults ≡ parsed (read_flags args)
    flags_read =
        valued_flag "--chat" args.chat (option_flag "--message" args.message tail1) chat defaults f0
          refl refl
        ∙ option_read "--message" message args.message tail1 f0 f1 refl (λ v e. rw e refl)
            (λ e. rw e refl)
        ∙ option_read "--retry-message" retry_message args.retry_message tail2 f1 f2 refl
            (λ v e. rw e refl) (λ e. rw e refl)
        ∙ numbers_read args (switch "--release-on-local-input" args.release_on_local_input) f2 valid
        ∙ switch_read args.release_on_local_input (with_numbers args f2) refl
