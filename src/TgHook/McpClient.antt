-- ===== src/TgHook/McpClient.antt =====
-- The client of crates/tg-hook/src/mcp_client.rs. The system's side of the pipe is a parameter: how
-- each attempt to open it ends, which writes it takes, and the lines that it gives, where a read that
-- fails is `none` and the end of the list is a pipe that is closed.
pub mod Trusted
use telegram_mcpvscode.Prelude.{
  String, ℕ, zero, suc, ◌+◌, ◌%◌, ◌^◌, pos, Bool, true, false, Option, none, some, List, [], ◌∷◌,
  ◌++◌, ◌==◌, if◌then◌else◌,
}
use telegram_mcpvscode.Prelude.Options.{◌>>=◌}
use telegram_mcpvscode.Prelude.Trim.{trim, is_empty}
use telegram_mcpvscode.Json.{Value, obj, str, num, field, end, get, as_u64}
use telegram_mcpvscode.Json.Serde.{Serde}

-- An attempt to open the pipe: it is open, with the process that serves it if that can be found;
-- all its instances are busy; or it fails otherwise.
pub data Attempt : Type 0 where
  opened : Option ℕ → Attempt
  busy refused : Attempt

abbrev pub pipe_open_retries : ℕ
pipe_open_retries = 10

unfoldable pub open_with_retry : ℕ → List Attempt → Option (Option ℕ)
open_with_retry zero attempts = none
open_with_retry (suc n) [] = none
open_with_retry (suc n) (opened server ∷ attempts) = some server
open_with_retry (suc n) (busy ∷ attempts) = open_with_retry n attempts
open_with_retry (suc n) (refused ∷ attempts) = none

-- A line that is written: the token, or a JSON-RPC message.
pub data Line : Type 0 where
  auth : String → Line
  message : Value → Line

pub record McpClient : Type 0 where
  pub next_id : ℕ
  pub written : List Line
  pub incoming : List (Option String)

-- A result, and the client after it.
abbrev pub Step : Type 0 → Type 0
Step A = Option A × McpClient

abbrev pub then_do : {A B : Type 0} → Step A → (A → McpClient → Step B) → Step B
then_do (none, c) f = (none, c)
then_do (some a, c) f = f a c

abbrev pub initialize_params : String → Value
initialize_params version = obj (
    field "protocolVersion" (str "2024-11-05") (
      field "capabilities" (obj end) (
        field "clientInfo" (obj (field "name" (str "tg-hook") (field "version" (str version) end)))
          end)))

abbrev pub initialized : Value
initialized =
    obj (field "jsonrpc" (str "2.0") (field "method" (str "notifications/initialized") end))

abbrev pub rpc : ℕ → String → Value → Value
rpc id method params = obj (
    field "jsonrpc" (str "2.0")
      (field "id" (num (pos id)) (field "method" (str method) (field "params" params end))))

abbrev pub same_id : ℕ → Option ℕ → Bool
same_id id none = false
same_id id (some n) = n == id

abbrev pub answers : ℕ → Value → Bool
answers id v = same_id id (get v "id" >>= as_u64)

-- `accepts` says whether the pipe takes the next write.
module _ (serde : Serde) (accepts : List Line → Bool) where
  -- The loop that skips what is no response to the request.
  unfoldable pub await_response : ℕ → List (Option String) → Option Value × List (Option String)
  unfolding trim get as_u64
  await_response id [] = (none, [])
  await_response id (none ∷ lines) = (none, lines)
  await_response id (some line ∷ lines) =
      let further = await_response id lines in
      let trimmed = trim line in
      if is_empty trimmed then further else elim (serde.from_str trimmed) [
        | none ↦ (none, lines)
        | some v ↦ if answers id v then (some v, lines) else further
      ]

  abbrev pub write : Line → McpClient → Step (Unit {0})
  write line c =
      if accepts c.written
      then (some tt, record c { written = c.written ++ (line ∷ []) })
      else (none, c)

  abbrev pub receive : ℕ → McpClient → Step Value
  receive id c =
      let (response, lines) = await_response id c.incoming in
      (response, record c { incoming = lines })

  unfoldable pub request : String → Value → McpClient → Step Value
  unfolding await_response
  request method params c =
      let id = c.next_id in
      then_do (write (message (rpc id method params)) (record c { next_id = (id + 1) % 2 ^ 64 }))
        (λ _ c'. receive id c')

  abbrev pub result_of : Value → McpClient → Step Value
  result_of resp c = elim (get resp "error") [ some e ↦ (none, c) | none ↦ (get resp "result", c) ]

  unfoldable pub call_tool : String → Value → McpClient → Step Value
  unfolding request get
  call_tool name arguments c =
      then_do
        (request "tools/call" (obj (field "name" (str name) (field "arguments" arguments end))) c)
        result_of

  unfoldable pub initialize : String → McpClient → Step (Unit {0})
  unfolding request
  initialize version c =
      then_do (request "initialize" (initialize_params version) c)
        (λ _ c'. write (message initialized) c')

  -- The client begins with nothing written. Only a pipe of the expected process is written to.
  abbrev pub fresh : List (Option String) → McpClient
  fresh incoming = record { next_id = 1; written = []; incoming = incoming }

  abbrev pub greet : String → String → McpClient → Step (Unit {0})
  greet version token c = then_do (write (auth token) c) (λ _ c'. initialize version c')

  abbrev pub verified : String → String → ℕ → Option (Option ℕ) → McpClient → Step (Unit {0})
  verified version token expected none c = (none, c)
  verified version token expected (some none) c = (none, c)
  verified version token expected (some (some pid)) c =
      if pid == expected then greet version token c else (none, c)

  unfoldable pub connect :
      String → String → ℕ → List Attempt → List (Option String) → Step (Unit {0})
  unfolding open_with_retry initialize
  connect version token expected attempts incoming =
      verified version token expected (open_with_retry pipe_open_retries attempts) (fresh incoming)
