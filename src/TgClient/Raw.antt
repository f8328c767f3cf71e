-- ===== src/TgClient/Raw.antt =====
-- The methods of `TgClient` that read raw JSON, in crates/tg-client/src/client.rs: `get_updates_raw`
-- and `download_file`. What the HTTP client does with a request is a parameter.
use Prim.Native.Char.{Char, code}
pub mod Updates
use telegram_mcpvscode.Prelude.{
  String, ◌<>◌, ℕ, ◌+◌, ℤ, pos, negsuc, Bool, true, false, ◌||◌, Option, none, some, List, [], ◌∷◌,
  map, ◌==◌, str_eq, eqb_ℤ, if◌then◌else◌,
}
use telegram_mcpvscode.Prelude.Lists.{any_by}
use telegram_mcpvscode.Prelude.Options.{◌>>=◌, or_else, unwrap_or}
use telegram_mcpvscode.Prelude.Split.{split_on}
use telegram_mcpvscode.Prelude.Word.{as_i32, as_u32}
use telegram_mcpvscode.Json.{
  Value, Items, Fields, obj, arr, str, num, field, end, cons, nil, get, as_bool, as_str, as_i64,
  as_u64, as_array,
}
use telegram_mcpvscode.TgClient.Types.{
  TgClientError, http, api, rate_limited, download, Reply, answered, refused,
}

-- `resp["ok"].as_bool() == Some(true)`
abbrev pub is_true : Option Bool → Bool
is_true none = false
is_true (some b) = b

abbrev pub says_ok : Value → Bool
says_ok resp = is_true (get resp "ok" >>= as_bool)

abbrev error_code : Value → ℤ
error_code resp = as_i32 (unwrap_or (pos 0) (get resp "error_code" >>= as_i64))

abbrev description : Value → String
description resp = unwrap_or "" (get resp "description" >>= as_str)

abbrev retry_after : Value → ℕ
retry_after resp =
    as_u32 (unwrap_or 1 ((get resp "parameters" >>= λ p. get p "retry_after") >>= as_u64))

-- getUpdates

abbrev strings : List String → Items
strings [] = nil
strings (s ∷ ss) = cons (str s) (strings ss)

abbrev kinds_field : Option (List String) → Fields
kinds_field none = end
kinds_field (some kinds) = field "allowed_updates" (arr (strings kinds)) end

abbrev offset_field : Option ℤ → Fields → Fields
offset_field none rest = rest
offset_field (some o) rest = field "offset" (num o) rest

unfoldable pub updates_body : Option ℤ → ℕ → Option (List String) → Value
updates_body offset timeout_secs allowed_updates =
    obj
      (offset_field offset (field "timeout" (num (pos timeout_secs)) (kinds_field allowed_updates)))

abbrev array_or_error : Option (List Value) → Reply (List Value)
array_or_error none = refused (api (negsuc 0) "result is not an array")
array_or_error (some us) = answered us

abbrev refusal : Value → Reply (List Value)
refusal resp =
    if eqb_ℤ (error_code resp) (pos 429)
    then refused (rate_limited (retry_after resp))
    else refused (api (error_code resp) (description resp))

unfoldable pub updates_of : Value → Reply (List Value)
unfolding get as_i64 as_u64 as_i32 as_u32
updates_of resp =
    if says_ok resp then array_or_error (get resp "result" >>= as_array) else refusal resp

-- A transport failure, or the JSON of the answer, whatever its status.
pub data HttpReply : Type 0 where
  failed : HttpReply
  json : Value → HttpReply

abbrev pub decode_http : {A : Type 0} → (Value → Reply A) → HttpReply → Reply A
decode_http f failed = refused http
decode_http f (json resp) = f resp

unfoldable pub get_updates_raw :
    (Value → HttpReply) → Option ℤ → ℕ → Option (List String) → Reply (List Value)
unfolding updates_of updates_body
get_updates_raw post offset timeout_secs allowed_updates =
    decode_http updates_of (post (updates_body offset timeout_secs allowed_updates))

-- getFile and the download

abbrev is_separator : Char → Bool
is_separator c = (code c == 47) || (code c == 92)

abbrev starts_with_separator : String → Bool
starts_with_separator String.[] = false
starts_with_separator (String.◌∷◌ c s) = is_separator c

unfoldable pub is_unsafe : String → Bool
unfolding split_on any_by
is_unsafe file_path =
    starts_with_separator file_path
    || any_by (λ seg. str_eq seg "..") (split_on is_separator file_path)

abbrev safe_or_error : Option String → Reply String
safe_or_error none = refused (download "missing file_path")
safe_or_error (some file_path) =
    if is_unsafe file_path
    then refused (download ("getFile returned an unsafe file_path: " <> file_path))
    else answered file_path

unfoldable pub file_path_of : Value → Reply String
unfolding get as_i64 as_i32
file_path_of resp =
    if says_ok resp
    then safe_or_error ((get resp "result" >>= λ r. get r "file_path") >>= as_str)
    else refused (api (error_code resp) (description resp))

-- What the stream of the file gives: chunks by their lengths, up to its end or a failure of the
-- network or of the disk.
pub data Chunks : Type 0 where
  done broken : Chunks
  disk_error : String → Chunks
  chunk : ℕ → Chunks → Chunks

-- `getFile` may be refused, and so may the file, before its first chunk.
pub record Files : Type 0 where
  pub get_file : String → HttpReply
  pub fetch : String → Chunks

unfoldable pub write_chunks : ℕ → Chunks → Reply ℕ
write_chunks total done = answered total
write_chunks total broken = refused http
write_chunks total (disk_error reason) = refused (download reason)
write_chunks total (chunk n rest) = write_chunks (total + n) rest

abbrev fetched : Files → Reply String → Reply ℕ
fetched files (answered file_path) = write_chunks 0 (files.fetch file_path)
fetched files (refused e) = refused e

unfoldable pub download_file : Files → String → Reply ℕ
unfolding write_chunks file_path_of
download_file files file_id = fetched files (decode_http file_path_of (files.get_file file_id))
