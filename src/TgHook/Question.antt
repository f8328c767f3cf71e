-- ===== src/TgHook/Question.antt =====
-- crates/tg-hook/src/question.rs: the questions of an `AskUserQuestion` call, their text for Telegram,
-- and the answer that a reply gives. The texts of the errors are left out.
pub mod Numbers
pub mod Picked
use telegram_mcpvscode.Prelude.{
  String, ◌<>◌, ℕ, zero, suc, ◌+◌, ◌-◌, ◌==◌, Bool, true, false, not, ◌&&◌, Option, none, some,
  List, [], ◌∷◌, ◌++◌, map, length, leb, if◌then◌else◌,
}
use telegram_mcpvscode.Prelude.Lists.{filter_by, filter_map}
use telegram_mcpvscode.Prelude.Options.{◌>>=◌, unwrap_or}
use telegram_mcpvscode.Prelude.Text.{is_digit, parse_u64, show_ℕ}
use telegram_mcpvscode.Prelude.Trim.{trim}
use telegram_mcpvscode.Prelude.Split.{split_on, join}
use telegram_mcpvscode.Json.{Value, get, as_str, as_bool, as_array}

pub record QOption : Type 0 where
  pub label : String
  pub description : Option String

pub record Question : Type 0 where
  pub header : Option String
  pub text : String
  pub multi_select : Bool
  pub options : List QOption

-- `collect::<Result<Vec<_>>>()`
abbrev pub collect : {A : Type 0} → List (Option A) → Option (List A)
collect [] = some []
collect (o ∷ os) = do a ← o; rest ← collect os; some (a ∷ rest)

abbrev pub non_empty : {A : Type 0} → List A → Option (List A)
non_empty [] = none
non_empty (a ∷ rest) = some (a ∷ rest)

abbrev pub parse_option : Value → Option QOption
parse_option o = do
  label ← get o "label" >>= as_str
  some (record { label = label; description = get o "description" >>= as_str })

unfoldable pub parse_question : Value → Option Question
parse_question v = do
  text ← get v "question" >>= as_str
  offered ← get v "options" >>= as_array
  all ← collect (map parse_option offered)
  options ← non_empty all
  some (record {
    header = get v "header" >>= as_str;
    text = text;
    multi_select = unwrap_or false (get v "multiSelect" >>= as_bool);
    options = options;
  })

unfoldable pub from_tool_input : Value → Option (List Question)
unfolding parse_question
from_tool_input tool_input = do
  asked ← get tool_input "questions" >>= as_array
  questions ← collect (map parse_question asked)
  non_empty questions

-- `0..n` paired with the index of the question
abbrev pub indices : ℕ → ℕ → List QOption → List (ℕ × ℕ)
indices qi oi [] = []
indices qi oi (o ∷ os) = (qi, oi) ∷ indices qi (oi + 1) os

abbrev pub flat_from : ℕ → List Question → List (ℕ × ℕ)
flat_from qi [] = []
flat_from qi (q ∷ qs) = indices qi 0 q.options ++ flat_from (qi + 1) qs

unfoldable pub flat_options : List Question → List (ℕ × ℕ)
flat_options questions = flat_from 0 questions

abbrev pub option_line : ℕ → QOption → Option String → String
option_line n opt (some d) = "   " <> show_ℕ n <> ". " <> opt.label <> " — " <> d <> "\n"
option_line n opt none = "   " <> show_ℕ n <> ". " <> opt.label <> "\n"

-- The lines of the options, and the number of the last of them.
abbrev pub render_options : ℕ → List QOption → String
render_options n [] = ""
render_options n (opt ∷ opts) =
    option_line (n + 1) opt opt.description <> render_options (n + 1) opts

abbrev pub header_line : Option String → String
header_line none = ""
header_line (some h) = "▸ " <> h <> "\n"

abbrev pub render_question : ℕ → Question → String
render_question n q =
    "\n"
    <> header_line q.header
    <> q.text
    <> "\n"
    <> render_options n q.options
    <> (if q.multi_select then "   (multi-select — list every number that applies)\n" else "")

abbrev pub render_from : ℕ → List Question → String
render_from n [] = ""
render_from n (q ∷ qs) = render_question n q <> render_from (n + length q.options) qs

unfoldable pub render : List Question → String
unfolding show_ℕ
render questions =
    "🔵 Claude needs your input — reply with the option number(s).\n"
    <> render_from 0 questions
    <> "\nReply with one number per question (e.g. \"1, 4\"); for a multi-select question list each number you want."

abbrev pub in_range : ℕ → ℕ → Bool
in_range total n = leb 1 n && leb n total

-- `usize` has 64 bits, and the pieces hold digits only, so that it parses as `u64` does.
unfoldable pub picks_of : List Question → String → List ℕ
unfolding filter_by filter_map split_on parse_u64 is_digit flat_options
picks_of questions reply =
    filter_by (in_range (length (flat_options questions)))
      (filter_map parse_u64 (split_on (λ c. not (is_digit c)) reply))

abbrev pub nth {ℓ} : {A : Type ℓ} → ℕ → List A → Option A
nth i [] = none
nth zero (x ∷ xs) = some x
nth (suc i) (x ∷ xs) = nth i xs

-- `per_question[qi].push(label)`
abbrev pub push_at : ℕ → String → List (List String) → List (List String)
push_at i label [] = []
push_at zero label (chosen ∷ rest) = (chosen ++ (label ∷ [])) ∷ rest
push_at (suc i) label (chosen ∷ rest) = chosen ∷ push_at i label rest

abbrev pub label_at : List Question → ℕ × ℕ → Option String
label_at questions (qi, oi) = do q ← nth qi questions; opt ← nth oi q.options; some opt.label

abbrev pub pushed : ℕ × ℕ → Option String → List (List String) → List (List String)
pushed at none per_question = per_question
pushed (qi, oi) (some label) per_question = push_at qi label per_question

abbrev pub pick : List Question → Option (ℕ × ℕ) → List (List String) → List (List String)
pick questions none per_question = per_question
pick questions (some at) per_question = pushed at (label_at questions at) per_question

-- The loop over the picks; `flat[n - 1]` exists for each of them.
unfoldable pub grouped : List Question → List ℕ → List (List String) → List (List String)
unfolding flat_options
grouped questions [] per_question = per_question
grouped questions (n ∷ ns) per_question =
    grouped questions ns (pick questions (nth (n - 1) (flat_options questions)) per_question)

abbrev pub nothing_picked : List Question → List (List String)
nothing_picked questions = map (λ q. []) questions

abbrev pub answer_line : Question → List String → String
answer_line q [] = "• " <> unwrap_or q.text q.header <> ": (no option picked)\n"
answer_line q (c ∷ cs) = "• " <> unwrap_or q.text q.header <> ": " <> join "; " (c ∷ cs) <> "\n"

abbrev pub answer_lines : List Question → List (List String) → String
answer_lines (q ∷ qs) (chosen ∷ rest) = answer_line q chosen <> answer_lines qs rest
answer_lines _ _ = ""

abbrev pub answer_of : List Question → List ℕ → String → String
answer_of questions [] reply =
    "The user answered the AskUserQuestion prompt via Telegram with a free-text reply: \""
    <> trim reply
    <> "\". Interpret it as their answer to the question(s) and continue — do not call AskUserQuestion again."
answer_of questions (n ∷ ns) reply =
    "The user answered the AskUserQuestion prompt via Telegram (not the in-app dialog):\n"
    <> answer_lines questions (grouped questions (n ∷ ns) (nothing_picked questions))
    <> "Use these answers and continue — do not call AskUserQuestion again for them."

unfoldable pub answer_from_reply : List Question → String → String
unfolding picks_of grouped trim join
answer_from_reply questions reply = answer_of questions (picks_of questions reply) reply
