-- ===== src/TgClient/Raw/Updates.antt =====
-- When `get_updates_raw` gives updates.
use telegram_mcpvscode.Prelude.{
  String, ℕ, ℤ, Bool, true, Option, none, some, List, ◌≡◌, ◌↔◌, refl, ap, arith, Bool-cases, inl,
  inr,
}
use telegram_mcpvscode.Prelude.Options.{◌>>=◌}
use telegram_mcpvscode.Json.{Value, get, as_bool, as_array}
use telegram_mcpvscode.TgClient.Types.{answered}
use telegram_mcpvscode.TgClient.Raw.{
  HttpReply, failed, json, decode_http, array_or_error, refusal, is_true, says_ok, updates_of,
  updates_body, get_updates_raw,
}

array_or_error-answered :
    (o : Option (List Value)) {us : List Value} → array_or_error o ≡ answered us → o ≡ some us
array_or_error-answered none h = cc
array_or_error-answered (some vs) {us} h = let e : vs ≡ us = cc h in ap some e

is_true-some : (o : Option Bool) → is_true o ≡ true → o ≡ some true
is_true-some none h = cc
is_true-some (some b) h = ap some h

refusal-refused : (resp : Value) {us : List Value} → ¬ (refusal resp ≡ answered us)
refusal-refused resp h = ground arith

-- The document says that all is well, and has a list of updates.
abbrev pub Delivers : Value → List Value → Type 0
Delivers resp us =
    ((get resp "ok" >>= as_bool) ≡ some true) × ((get resp "result" >>= as_array) ≡ some us)

updates_of_iff :
    (resp : Value) (us : List Value) → (updates_of resp ≡ answered us) ↔ Delivers resp us
unfolding updates_of
updates_of_iff resp us = (there, back)
  where
    there : updates_of resp ≡ answered us → Delivers resp us
    there h = elim (Bool-cases (says_ok resp)) [
      | inl fine ↦ (is_true-some _ fine, array_or_error-answered _ (rw fine at h))
      | inr bad ↦ absurd (refusal-refused resp (rw bad at h))
    ]

    back : Delivers resp us → updates_of resp ≡ answered us
    back (fine, found) = rw (fine, found)

-- `get_updates_raw` gives the updates `us` exactly if the server answered the request with a JSON
-- document whose `ok` is true and whose `result` is the array `us`.
pub get_updates_raw_iff :
    (post : Value → HttpReply) (offset : Option ℤ) (timeout_secs : ℕ) (kinds : Option (List String))
    (us : List Value)
    → (get_updates_raw post offset timeout_secs kinds ≡ answered us) ↔ (
        (resp : Value) × (post (updates_body offset timeout_secs kinds) ≡ json resp)
        × Delivers resp us)
unfolding get_updates_raw
get_updates_raw_iff post offset timeout_secs kinds us =
    go (post (updates_body offset timeout_secs kinds))
  where
    go :
        (reply : HttpReply)
        → (decode_http updates_of reply ≡ answered us)
          ↔ ((resp : Value) × (reply ≡ json resp) × Delivers resp us)
    go failed = (λ h. absurd (cc h), λ (resp, e, d). absurd (cc e))
    go (json resp) = (
      λ h. (resp, refl, (updates_of_iff resp us).0 h),
      λ (r, e, d). let same : resp ≡ r = cc e in rw same ((updates_of_iff r us).1 d),
    )
