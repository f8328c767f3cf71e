-- ===== src/Tests/Data.antt =====
-- Data that the tests share: a `Serde` for a few documents, a chat, messages and tables.
use Prim.Native.Char.{code}
use mathlib.Core.Option.{some-injective}
use telegram_mcpvscode.Prelude.{
  String, pos, true, subst, Option, none, some, [], ◌∷◌, ◌≡◌, refl, ◌==◌, if◌then◌else◌,
}
use telegram_mcpvscode.Json.{Value, str, obj, field, end, bool, num, Fields}
use telegram_mcpvscode.Json.Serde.{Serde}
use telegram_mcpvscode.History.Types.{ChatInfo, StoredMessage, group, incoming}
use telegram_mcpvscode.History.Conn.{MessageRow, Db}

abbrev write_field : Fields → Option String
write_field (field k (bool true) end) = some (String.◌∷◌ "t" k)
write_field _ = none

abbrev write : Value → Option String
write (str s) = some (String.◌∷◌ "s" s)
write (obj fields) = write_field fields
write _ = none

abbrev read : String → Option Value
read String.[] = none
read (String.◌∷◌ c s) =
    if code c == 115
    then some (str s)
    else if code c == 116
    then some (obj (field s (bool true) end))
    else none

pub read-write : (v : Value) (s : String) → write v ≡ some s → read s ≡ some v
read-write (str x) s h = subst (λ t. read t ≡ some (str x)) (some-injective _ _ h) refl
read-write (obj (field k (bool true) end)) s h =
    subst (λ t. read t ≡ some (obj (field k (bool true) end))) (some-injective _ _ h) refl
read-write v s h = cc

abbrev pub few_documents : Serde
few_documents = record {
  to_string = write;
  from_str = read;
  from_str-to_string = λ v s _ h. read-write v s h;
}

abbrev pub team : ChatInfo
team = record {
  chat_id = pos 5;
  kind = group;
  title = some "team";
  username = none;
  first_seen = pos 100;
  last_seen = pos 100;
}

abbrev pub hello : StoredMessage
hello = record {
  chat_id = pos 5;
  message_id = pos 2;
  date = pos 100;
  from_id = some (pos 7);
  from_name = some "Ann";
  reply_to = none;
  text = some "hello";
  media_kind = none;
  media_file_id = none;
  media_meta = none;
  direction = incoming;
  raw = obj (field "raw" (bool true) end);
}

abbrev pub old_row : MessageRow
old_row = record {
  rowid = 1;
  chat_id = pos 5;
  message_id = pos 1;
  date = pos 10;
  from_id = none;
  from_name = none;
  reply_to = none;
  text = some "old";
  media_kind = none;
  media_file_id = none;
  media_meta = none;
  direction = "in";
  raw = "traw";
}

abbrev pub new_row : MessageRow
new_row = record old_row { rowid = 2; message_id = pos 4; date = pos 90; text = some "new" }

abbrev pub one_message : Db
one_message = record {
  chats = [];
  messages = old_row ∷ [];
  fts = record { rowid = 1; text = some "old" } ∷ [];
  kv = [];
}

abbrev pub two_messages : Db
two_messages = record {
  chats = [];
  messages = old_row ∷ new_row ∷ [];
  fts = record { rowid = 1; text = some "old" } ∷ record { rowid = 2; text = some "new" } ∷ [];
  kv = [];
}

-- An update that the Bot API delivers.
abbrev pub delivery : Value
delivery = obj (
    field "update_id" (num (pos 41)) (
      field "message"
        (obj (
          field "message_id" (num (pos 3)) (
            field "date" (num (pos 100)) (
              field "chat" (obj (field "id" (num (pos 5)) (field "type" (str "group") end))) end))))
        end))

abbrev pub empty : Db
empty = record { chats = []; messages = []; fts = []; kv = [] }
