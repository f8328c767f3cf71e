-- ===== src/History/Types.antt =====
-- The value types of crates/history/src/types.rs and the errors of crates/history/src/error.rs.
use telegram_mcpvscode.Prelude.{String, ℕ, ℤ, Option, none, some, if◌then◌else◌, str_eq, ◌≡◌, refl}
use telegram_mcpvscode.Json.{Value}

pub data Direction : Type 0 where
  incoming outgoing : Direction

abbrev pub direction_as_sql : Direction → String
direction_as_sql incoming = "in"
direction_as_sql outgoing = "out"

abbrev pub direction_from_sql : String → Option Direction
direction_from_sql s =
    if str_eq s "in" then some incoming else if str_eq s "out" then some outgoing else none

pub data ChatKind : Type 0 where
  private group supergroup channel : ChatKind

abbrev pub kind_as_sql : ChatKind → String
kind_as_sql private = "private"
kind_as_sql group = "group"
kind_as_sql supergroup = "supergroup"
kind_as_sql channel = "channel"

abbrev pub kind_from_sql : String → Option ChatKind
kind_from_sql s =
    if str_eq s "private"
    then some private
    else if str_eq s "group"
    then some group
    else if str_eq s "supergroup"
    then some supergroup
    else if str_eq s "channel"
    then some channel
    else none

pub record ChatInfo : Type 0 where
  pub chat_id : ℤ
  pub kind : ChatKind
  pub title : Option String
  pub username : Option String
  pub first_seen : ℤ
  pub last_seen : ℤ

pub record ChatSummary : Type 0 where
  pub info : ChatInfo
  pub unread_count : ℤ
  pub last_message_id : Option ℤ

pub record StoredMessage : Type 0 where
  pub chat_id : ℤ
  pub message_id : ℤ
  pub date : ℤ
  pub from_id : Option ℤ
  pub from_name : Option String
  pub reply_to : Option ℤ
  pub text : Option String
  pub media_kind : Option String
  pub media_file_id : Option String
  pub media_meta : Option Value
  pub direction : Direction
  pub raw : Value

pub record SearchHit : Type 0 where
  pub chat_id : ℤ
  pub message_id : ℤ
  pub date : ℤ
  pub snippet : String

-- The payloads of other crates' errors are left out, and so is `Join`, a panic of a blocking task.
pub data HistoryError : Type 0 where
  sqlite : HistoryError
  migration : ℕ → ℕ → HistoryError
  not_found : ℤ → ℤ → HistoryError
  corruption : String → HistoryError
  json : HistoryError

pub direction_from_sql-direction_as_sql :
    (d : Direction) → direction_from_sql (direction_as_sql d) ≡ some d
direction_from_sql-direction_as_sql incoming = refl
direction_from_sql-direction_as_sql outgoing = refl

pub kind_from_sql-kind_as_sql : (k : ChatKind) → kind_from_sql (kind_as_sql k) ≡ some k
kind_from_sql-kind_as_sql private = refl
kind_from_sql-kind_as_sql group = refl
kind_from_sql-kind_as_sql supergroup = refl
kind_from_sql-kind_as_sql channel = refl
