-- ===== src/TgHook/Cli.antt =====
-- The command line of the hook, crates/tg-hook/src/cli.rs.
pub mod Printed
use telegram_mcpvscode.Prelude.{
  String, ℕ, ◌==◌, Bool, true, false, Option, none, some, List, [], ◌∷◌, if◌then◌else◌, str_eq,
}
use telegram_mcpvscode.Prelude.Text.{parse_u64}

pub record CliArgs : Type 0 where
  pub chat : String
  pub message : Option String
  pub retry_message : Option String
  pub timeout_secs : ℕ
  pub poll_secs : ℕ
  pub release_on_local_input : Bool
  pub local_input_threshold_secs : ℕ

pub data CliError : Type 0 where
  needs_value : String → CliError
  bad_number : String → CliError
  unknown_argument : String → CliError
  chat_required poll_secs_zero timeout_secs_zero : CliError

-- `helped` prints the usage and ends the process.
pub data Parsed (A : Type 0) : Type 0 where
  parsed : A → Parsed A
  helped : Parsed A
  failed : CliError → Parsed A

infixl 5 ◌>>=◌
abbrev pub ◌>>=◌ : {A B : Type 0} → Parsed A → (A → Parsed B) → Parsed B
parsed a >>= f = f a
helped >>= f = helped
failed e >>= f = failed e

-- The variables of `parse_from` before `--chat` is checked.
pub record Flags : Type 0 where
  pub chat : Option String
  pub message : Option String
  pub retry_message : Option String
  pub timeout_secs : ℕ
  pub poll_secs : ℕ
  pub release_on_local_input : Bool
  pub local_input_threshold_secs : ℕ

abbrev pub defaults : Flags
defaults = record {
  chat = none;
  message = none;
  retry_message = none;
  timeout_secs = 3600;
  poll_secs = 5;
  release_on_local_input = false;
  local_input_threshold_secs = 2;
}

-- The arms of the match: those that take a value, and the others.
pub data Valued : Type 0 where
  chat message retry_message timeout_secs poll_secs local_input_threshold_secs : Valued

pub data Arm : Type 0 where
  valued : Valued → Arm
  release help : Arm
  other : String → Arm

unfoldable pub arm_of : String → Arm
arm_of a =
    if str_eq a "--chat"
    then valued chat
    else if str_eq a "--message"
    then valued message
    else if str_eq a "--retry-message"
    then valued retry_message
    else if str_eq a "--timeout-secs"
    then valued timeout_secs
    else if str_eq a "--poll-secs"
    then valued poll_secs
    else if str_eq a "--release-on-local-input"
    then release
    else if str_eq a "--local-input-threshold-secs"
    then valued local_input_threshold_secs
    else if str_eq a "--help"
    then help
    else if str_eq a "-h"
    then help
    else other a

abbrev number : String → Option ℕ → Parsed ℕ
number flag none = failed (bad_number flag)
number flag (some n) = parsed n

unfoldable pub set : Valued → String → Flags → Parsed Flags
set chat v f = parsed (record f { chat = some v })
set message v f = parsed (record f { message = some v })
set retry_message v f = parsed (record f { retry_message = some v })
set timeout_secs v f = do
  n ← number "--timeout-secs" (parse_u64 v)
  parsed (record f { timeout_secs = n })
set poll_secs v f = do n ← number "--poll-secs" (parse_u64 v); parsed (record f { poll_secs = n })
set local_input_threshold_secs v f = do
  n ← number "--local-input-threshold-secs" (parse_u64 v)
  parsed (record f { local_input_threshold_secs = n })

-- The arms that take no value.
unfoldable pub apply : Arm → Flags → Parsed Flags
apply (valued _) f = parsed f
apply release f = parsed (record f { release_on_local_input = true })
apply help f = helped
apply (other a) f = failed (unknown_argument a)

-- The loop over the arguments after the first.
unfoldable pub parse_flags : List String → Flags → Parsed Flags
unfolding arm_of set apply
parse_flags [] f = parsed f
parse_flags (a ∷ []) f = elim (arm_of a) [ valued _ ↦ failed (needs_value a) | arm ↦ apply arm f ]
parse_flags (a ∷ v ∷ rest) f = elim (arm_of a) [
  | valued flag ↦ elim (set flag v f) [
    | parsed f' ↦ parse_flags rest f'
    | helped ↦ helped
    | failed e ↦ failed e
  ]
  | arm ↦ elim (apply arm f) [
    | parsed f' ↦ parse_flags (v ∷ rest) f'
    | helped ↦ helped
    | failed e ↦ failed e
  ]
]

abbrev required : Option String → Parsed String
required none = failed chat_required
required (some c) = parsed c

abbrev pub checked : Flags → Parsed CliArgs
checked f = do
  c ← required f.chat
  if f.poll_secs == 0
      then failed poll_secs_zero
      else if f.timeout_secs == 0
      then failed timeout_secs_zero
      else parsed (record {
        chat = c;
        message = f.message;
        retry_message = f.retry_message;
        timeout_secs = f.timeout_secs;
        poll_secs = f.poll_secs;
        release_on_local_input = f.release_on_local_input;
        local_input_threshold_secs = f.local_input_threshold_secs;
      })

abbrev pub arguments : List String → List String
arguments [] = []
arguments (program ∷ args) = args

unfoldable pub parse_from : List String → Parsed CliArgs
unfolding parse_flags
parse_from argv = do flags ← parse_flags (arguments argv) defaults; checked flags
