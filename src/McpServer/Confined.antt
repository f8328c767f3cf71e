-- ===== src/McpServer/Confined.antt =====
-- That a tool's requests stay within a list of chats, for the helpers of the tools.
use telegram_mcpvscode.Prelude.{
  String, Bool, true, Option, none, some, List, ℤ, ◌≡◌, inl, inr, All, Bool-cases,
}
use telegram_mcpvscode.Json.Serde.{Serde}
use telegram_mcpvscode.Aliases.{ChatRef, Aliases, Resolved}
use telegram_mcpvscode.Aliases
use telegram_mcpvscode.History.Conn.{Action}
use telegram_mcpvscode.TgClient.Types.{Reply}
use telegram_mcpvscode.McpServer.FilePaths.{FilePath, Resolution}
use telegram_mcpvscode.McpServer.FilePaths
use telegram_mcpvscode.TgClient.Types.{ParseMode}
use telegram_mcpvscode.McpServer.Wire.{
  Request, World, Result, ok, err, Tool, pure, require, proceed, ◌>>=◌, ◌>>◌, store, ask, get_me,
  send_message, send_photo_path, send_document_path, edit_message_text, delete_message,
  forward_message, send_chat_action, download_file,
}
use telegram_mcpvscode.McpServer.Tools.{
  State, Answer, resolved, path_of, resolve_chat, mirror_action, mirror_outbound, output_of,
  is_target, check_send_allowed, resolve_path, decode_parse_mode,
}
use telegram_mcpvscode.McpServer.Calls.{send}

-- The chat that a request changes or shows something in; a read and a download have none.
unfoldable pub target : Request → Option ℤ
target get_me = none
target (send_message chat_id text pm reply silent preview) = some chat_id
target (send_photo_path chat_id path caption pm) = some chat_id
target (send_document_path chat_id path caption filename) = some chat_id
target (edit_message_text chat_id message_id text pm) = some chat_id
target (delete_message chat_id message_id) = some chat_id
target (forward_message from_chat message_id to_chat) = some to_chat
target (send_chat_action chat_id action) = some chat_id
target (download_file file_id dest) = none

abbrev InList : List ℤ → Option ℤ → Type 0
InList list none = Unit
InList list (some chat_id) = is_target list chat_id ≡ true

unfoldable pub IsAllowed : List ℤ → Request → Type 0
unfolding target
IsAllowed list r = InList list (target r)

module _ (list : List ℤ) where
  -- The action keeps all requests within the list.
  pub record Confined {A : Type 0} (m : Tool A) : Type 0 where
    pub at : (w : World) → All (IsAllowed list) w.requests → All (IsAllowed list) (m w).1.requests

  module _ {A : Type 0} where
    pub pure-Confined : (a : A) → Confined (pure a)
    pure-Confined a = record { at = λ w h. h }

    pub require-Confined : (o : Option A) → Confined (require o)
    require-Confined none = record { at = λ w h. h }
    require-Confined (some a) = record { at = λ w h. h }

    pub store-Confined : (m : Action A) → Confined (store m)
    store-Confined m = record { at = λ w h. h }

    pub ask-Confined :
        (reply : List Request → Reply A) (r : Request) → IsAllowed list r → Confined (ask reply r)
    ask-Confined reply r good = record { at = λ w h. (good, h) }

  module _ {A B : Type 0} where
    pub proceed-Confined :
        (f : A → Tool B) (r : Result A) (w : World)
        → ((a : A) → Confined (f a))
        → All (IsAllowed list) w.requests
        → All (IsAllowed list) (proceed f r w).1.requests
    proceed-Confined f (ok a) w good h = (good a).at w h
    proceed-Confined f (err e) w good h = h

    pub bind-Confined :
        (m : Tool A) (f : A → Tool B) → Confined m → ((a : A) → Confined (f a)) → Confined (m >>= f)
    bind-Confined m f first then = record {
      at = λ w h. proceed-Confined f (m w).0 (m w).1 then (first.at w h);
    }

  pub resolved-Confined : (r : Resolved) → Confined (resolved r)
  resolved-Confined (Aliases.ok chat_id) = pure-Confined chat_id
  resolved-Confined (Aliases.err e) = require-Confined none

  pub path_of-Confined : (r : Resolution) → Confined (path_of r)
  path_of-Confined (FilePaths.ok q) = pure-Confined q
  path_of-Confined (FilePaths.err e) = require-Confined none

  pub decode_parse_mode-Confined : (s : Option String) → Confined (decode_parse_mode s)
  decode_parse_mode-Confined none = pure-Confined none
  decode_parse_mode-Confined (some v) =
      bind-Confined _ _ (require-Confined _) (λ m. pure-Confined (some m))

  -- What follows the check runs on an allowed chat only.
  pub check-Confined :
      {B : Type 0} (chat_id : ℤ) (k : Tool B)
      → (is_target list chat_id ≡ true → Confined k)
      → Confined (do check_send_allowed (some list) chat_id; k)
  unfolding check_send_allowed
  check-Confined chat_id k good = elim (Bool-cases (is_target list chat_id)) [
    | inl yes_target ↦ record { at = λ w h. rw yes_target ((good yes_target).at w h) }
    | inr no_target ↦ record { at = λ w h. rw no_target h }
  ]

  pub resolve-Confined :
      {B : Type 0} (state : State) (r : ChatRef) (k : ℤ → Tool B)
      → ((chat_id : ℤ) → Confined (k chat_id))
      → Confined (resolve_chat state.aliases r >>= k)
  resolve-Confined state r k then = bind-Confined _ k (resolved-Confined _) then

  -- A tool that only reads or writes the history.
  pub store_call-Confined :
      {A : Type 0} (state : State) (r : ChatRef) (m : ℤ → Action A) (k : ℤ → A → Answer)
      → Confined
          (do chat_id ← resolve_chat state.aliases r; a ← store (m chat_id); pure (k chat_id a))
  store_call-Confined state r m k =
      resolve-Confined state r _
        (λ c. bind-Confined _ _ (store-Confined (m c)) (λ a. pure-Confined (k c a)))

  module _ (serde : Serde) (windows : Bool) (state : State) where
    pub send-Confined :
        (r : Request) (text media_kind : Option String) (reply_to : Option ℤ)
        → IsAllowed list r
        → Confined (send serde windows state r text media_kind reply_to)
    send-Confined r text media_kind reply_to good =
        bind-Confined (ask (λ log. state.bot.sent log r) r) _
          (ask-Confined (λ log. state.bot.sent log r) r good)
          (λ sent.
            bind-Confined (mirror_outbound serde sent text media_kind reply_to) _
              (store-Confined (mirror_action serde sent text media_kind reply_to))
              (λ _. pure-Confined (output_of sent)))

    pub checked-Confined :
        {B : Type 0} (r : ChatRef) (k : ℤ → Tool B)
        → ((chat_id : ℤ) → is_target list chat_id ≡ true → Confined (k chat_id))
        → Confined (do
          chat_id ← resolve_chat state.aliases r
          check_send_allowed (some list) chat_id
          k chat_id)
    checked-Confined r k good = resolve-Confined state r _ (λ c. check-Confined c (k c) (good c))

    pub acted-Confined :
        (r : Request) (a : Answer)
        → IsAllowed list r
        → Confined (do ask (λ log. state.bot.done log r) r; pure a)
    acted-Confined r a good =
        bind-Confined (ask (λ log. state.bot.done log r) r) _
          (ask-Confined (λ log. state.bot.done log r) r good) (λ _. pure-Confined a)

    pub path_then :
        {B : Type 0} (p : FilePath) (k : FilePath → Tool B)
        → ((q : FilePath) → Confined (k q))
        → Confined (resolve_path windows p state.file_root >>= k)
    path_then p k then = bind-Confined _ k (path_of-Confined _) then

    pub mode_then :
        {B : Type 0} (s : Option String) (k : Option ParseMode → Tool B)
        → ((m : Option ParseMode) → Confined (k m))
        → Confined (decode_parse_mode s >>= k)
    mode_then s k then = bind-Confined _ k (decode_parse_mode-Confined s) then
