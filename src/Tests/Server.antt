-- ===== src/Tests/Server.antt =====
-- The theorems on the tools, the configuration and the handshake at concrete inputs.
use telegram_mcpvscode.Prelude.{
  pos, true, false, none, some, List, [], ◌∷◌, ◌++◌, ◌≡◌, ◌⊎◌, ◌↔◌, refl, arith, All,
}
use telegram_mcpvscode.Prelude.Lists.{any_by}
use telegram_mcpvscode.Aliases.{id}
use telegram_mcpvscode.TgClient.Types.{SentMessage, answered, refused, http}
use telegram_mcpvscode.History.Conn
use telegram_mcpvscode.History.Listing.{Fts}
use telegram_mcpvscode.History.Store.Reading.{no_faults}
use telegram_mcpvscode.LocalPipe.Auth.{Bytes, closed, ok, auth_prefix, consume_auth_line}
use telegram_mcpvscode.LocalPipe.Auth.Handshake.{consume_auth_line_sound, consume_auth_line_accepts}
use telegram_mcpvscode.McpServer.FilePaths.{
  Part, FilePath, normal, resolve_file_path, IsBelow, resolve_file_path_confined,
  resolve_file_path_escapes,
}
use telegram_mcpvscode.McpServer.FilePaths
use telegram_mcpvscode.McpServer.Wire.{Bot, World, Request, send_message}
use telegram_mcpvscode.McpServer.Wire
use telegram_mcpvscode.McpServer.Tools.{State}
use telegram_mcpvscode.McpServer.Calls.{call_tool, tg_forward_message}
use telegram_mcpvscode.McpServer.Confined.{IsAllowed}
use telegram_mcpvscode.McpServer.Access.{call_tool_confined}
use telegram_mcpvscode.Tests.Data.{few_documents, one_message}

abbrev receipt : SentMessage
receipt = record { chat_id = pos 5; message_id = pos 8; date = pos 200 }

abbrev pub polite_bot : Bot
polite_bot = record {
  identity = λ log. refused http;
  sent = λ log r. answered receipt;
  done = λ log r. answered tt;
  bytes = λ log r. answered 10;
}

abbrev pub team_only : State
team_only = record {
  bot = polite_bot;
  aliases = record { entries = ("team", pos 5) ∷ [] };
  allowed_send_targets = some (pos 5 ∷ []);
  file_root = none;
}

abbrev pub no_matches : Fts
no_matches = record { matches = λ q t. false; snippet = λ q t. "" }

abbrev greeting : Request
greeting = send_message (pos 5) "hi" none none false true

abbrev greeted : World
greeted = record { conn = no_faults one_message; requests = greeting ∷ [] }

call_tool_confined_example :
    All
      (IsAllowed (pos 5 ∷ []))
      (call_tool few_documents no_matches false team_only
        (tg_forward_message
          (record { from_chat = id (pos 5); message_id = pos 1; to_chat = id (pos 6) }))
        greeted).1.requests
unfolding IsAllowed any_by
call_tool_confined_example =
    call_tool_confined few_documents no_matches false team_only (pos 5 ∷ [])
      (tg_forward_message
        (record { from_chat = id (pos 5); message_id = pos 1; to_chat = id (pos 6) }))
      greeted refl (refl, tt)

abbrev shared : FilePath
shared = record { prefix = none; rooted = true; parts = normal "srv" ∷ [] }

abbrev picture : FilePath
picture = record { prefix = none; rooted = false; parts = normal "a.png" ∷ [] }

resolve_file_path_confined_example :
    IsBelow shared (record shared { parts = normal "srv" ∷ normal "a.png" ∷ [] })
unfolding resolve_file_path
resolve_file_path_confined_example =
    resolve_file_path_confined picture shared
      {q = record shared { parts = normal "srv" ∷ normal "a.png" ∷ [] }} refl refl

abbrev drive : FilePath
drive = record { prefix = some "C:"; rooted = true; parts = normal "srv" ∷ [] }

abbrev rooted_picture : FilePath
rooted_picture = record picture { rooted = true }

resolve_file_path_escapes_example :
    (q : FilePath) × (resolve_file_path true rooted_picture (some drive) ≡ FilePaths.ok q)
    × (IsBelow drive q
        ↔ ((true ≡ false) ⊎ ((rest : List Part) × (rooted_picture.parts ≡ normal "srv" ∷ rest))))
unfolding any_by
resolve_file_path_escapes_example = resolve_file_path_escapes rooted_picture drive refl refl refl

abbrev token : Bytes
token = 97 ∷ 98 ∷ []

consume_auth_line_sound_example :
    (auth_prefix ++ (token ++ (10 ∷ 1 ∷ [])) ≡ auth_prefix ++ (token ++ (10 ∷ 1 ∷ [])))
    ⊎ (auth_prefix ++ (token ++ (10 ∷ 1 ∷ [])) ≡ auth_prefix ++ (token ++ (13 ∷ 10 ∷ 1 ∷ [])))
unfolding consume_auth_line
consume_auth_line_sound_example =
    consume_auth_line_sound token (auth_prefix ++ (token ++ (10 ∷ 1 ∷ []))) closed {rest = 1 ∷ []}
      (omega arith, (omega arith, tt))
      (
        omega arith,
        (
          omega arith,
          (
            omega arith,
            (
              omega arith,
              (omega arith, (omega arith, (omega arith, (omega arith, (omega arith, tt))))),
            ),
          ),
        ),
      )
      refl

consume_auth_line_accepts_example :
    consume_auth_line token (auth_prefix ++ (token ++ (10 ∷ 1 ∷ []))) closed ≡ ok (1 ∷ [])
consume_auth_line_accepts_example =
    consume_auth_line_accepts token (1 ∷ []) closed
      ((omega arith, omega arith), ((omega arith, omega arith), tt)) (omega arith)
