-- ===== src/McpServer/Retention/Spared.antt =====
-- Which messages the retention task spares.
use telegram_mcpvscode.Prelude.{
  ℕ, ◌+◌, ◌*◌, ◌≤◌, ◌<◌, ◌^◌, ℤ, pos, Bool, none, some, List, [], ◌∷◌, ◌≡◌, refl, sym, ap, subst,
  ◌∙◌, inl, inr, arith, leb_ℤ, All,
}
use telegram_mcpvscode.Prelude.Int.{◌-ℤ◌, ◌*ℤ◌, ◌≤ℤ◌, InI64, negsuc}
use telegram_mcpvscode.Prelude.Word.{wrap_i64, wrap_i64_self}
use telegram_mcpvscode.Prelude.Lists.{filter_by}
use telegram_mcpvscode.History.Conn.{MessageRow, Db, Conn}
use telegram_mcpvscode.History.Store.{enforce_retention}
use telegram_mcpvscode.History.Store.Retention.{young, messages-retained, enforce_retention_atomic}
use telegram_mcpvscode.McpServer.Config.{RetentionConfig}
use telegram_mcpvscode.McpServer.Retention.{secs_per_day, cutoff_at, retention_tick, run_retention}

times_pos : (a b : ℕ) → pos a *ℤ pos b ≡ pos (a * b)
unfolding ◌*ℤ◌
times_pos a b = ground arith

minus_pos-InI64 : (a b : ℕ) → a < 2 ^ 63 → b < 2 ^ 63 → InI64 (pos a -ℤ pos b)
unfolding ◌-ℤ◌
minus_pos-InI64 a b ha hb = ground arith

-- Without overflow the cutoff is that many days ago.
cutoff_at_exact :
    (now days : ℕ)
    → now < 2 ^ 63
    → days * secs_per_day < 2 ^ 63
    → cutoff_at now days ≡ pos now -ℤ pos (days * secs_per_day)
unfolding cutoff_at
cutoff_at_exact now days in_range few =
    rw
      (
        wrap_i64_self (pos now) (in_range, omega arith),
        wrap_i64_self (pos days) (omega arith, omega arith),
        times_pos days secs_per_day,
        wrap_i64_self (pos (days * secs_per_day)) (few, omega arith),
      )
      (wrap_i64_self _ (minus_pos-InI64 now (days * secs_per_day) in_range few))

minus_negsuc : (a b : ℕ) → pos a -ℤ negsuc b ≡ pos (a + b + 1)
unfolding ◌-ℤ◌
minus_negsuc a b = ground arith

product_wraps : wrap_i64 (wrap_i64 (pos 213503982334601) *ℤ pos secs_per_day) ≡ negsuc 25215
unfolding wrap_i64 ◌*ℤ◌
product_wraps = refl

-- With so many days the product wraps around, and the cutoff lies in the future.
cutoff_at_wraps : (now : ℕ) → now < 2 ^ 62 → cutoff_at now 213503982334601 ≡ pos (now + 25215 + 1)
unfolding cutoff_at
cutoff_at_wraps now small =
    rw (wrap_i64_self (pos now) (omega arith, omega arith), product_wraps, minus_negsuc now 25215)
      (wrap_i64_self (pos (now + 25215 + 1)) (omega arith, omega arith))

abbrev pub since : ℤ → MessageRow → Bool
since horizon r = leb_ℤ horizon r.date

filter_by-since :
    (horizon cutoff : ℤ) (rows : List MessageRow)
    → cutoff ≤ℤ horizon
    → filter_by (since horizon) (young (some cutoff) rows) ≡ filter_by (since horizon) rows
unfolding filter_by
filter_by-since horizon cutoff [] h = refl
filter_by-since horizon cutoff (r ∷ rows) h = ground (arith, filter_by-since horizon cutoff rows h)

tick-since :
    (cutoff horizon : ℤ) (c : Conn)
    → cutoff ≤ℤ horizon
    → filter_by (since horizon) (enforce_retention (some cutoff) none c).1.db.messages
      ≡ filter_by (since horizon) c.db.messages
tick-since cutoff horizon c h = elim (enforce_retention_atomic (some cutoff) none c) [
  | inl (_, e) ↦
      ap (λ (db : Db). filter_by (since horizon) db.messages) e
      ∙ ap (filter_by (since horizon)) (messages-retained (some cutoff) none c.db)
      ∙ filter_by-since horizon cutoff c.db.messages h
  | inr (_, _, e) ↦ ap (λ (db : Db). filter_by (since horizon) db.messages) e
]

minus_pos_mono : (a b n : ℕ) → a ≤ b → (pos a -ℤ pos n) ≤ℤ (pos b -ℤ pos n)
unfolding ◌-ℤ◌
minus_pos_mono a b n h = ground arith

cutoff_at_less :
    (now last days : ℕ)
    → days * secs_per_day < 2 ^ 63
    → last < 2 ^ 63
    → now ≤ last
    → cutoff_at now days ≤ℤ (pos last -ℤ pos (days * secs_per_day))
cutoff_at_less now last days few in_range h =
    subst (λ z. z ≤ℤ (pos last -ℤ pos (days * secs_per_day)))
      (sym (cutoff_at_exact now days (omega arith) few))
      (minus_pos_mono now last (days * secs_per_day) h)

one_tick :
    (cfg : RetentionConfig) (days last now : ℕ) (c : Conn)
    → cfg.max_age_days ≡ some days
    → cfg.max_messages_per_chat ≡ none
    → days * secs_per_day < 2 ^ 63
    → last < 2 ^ 63
    → now ≤ last
    → filter_by
        (since (pos last -ℤ pos (days * secs_per_day)))
        (retention_tick cfg now c).db.messages
      ≡ filter_by (since (pos last -ℤ pos (days * secs_per_day))) c.db.messages
unfolding retention_tick
one_tick cfg days last now c is_days no_limit few in_range h =
    rw (is_days, no_limit)
      (tick-since (cutoff_at now days) (pos last -ℤ pos (days * secs_per_day)) c
        (cutoff_at_less now last days few in_range h))

-- When the age limit in seconds and the times are below 2 ^ 63 and there is no limit per chat, then
-- after any ticks up to a time, whichever statements fail, the messages that are no older than the
-- limit at that time are those that were there, in the same order.
pub run_retention_spares :
    (cfg : RetentionConfig) (days last : ℕ) (ticks : List ℕ) (c : Conn)
    → cfg.max_age_days ≡ some days
    → cfg.max_messages_per_chat ≡ none
    → days * secs_per_day < 2 ^ 63
    → last < 2 ^ 63
    → All (λ now. now ≤ last) ticks
    → filter_by
        (since (pos last -ℤ pos (days * secs_per_day)))
        (run_retention cfg ticks c).db.messages
      ≡ filter_by (since (pos last -ℤ pos (days * secs_per_day))) c.db.messages
unfolding run_retention
run_retention_spares cfg days last [] c is_days no_limit few in_range h = refl
run_retention_spares cfg days last (now ∷ ticks) c is_days no_limit few in_range (h, hs) =
    run_retention_spares cfg days last ticks (retention_tick cfg now c) is_days no_limit few
      in_range hs
    ∙ one_tick cfg days last now c is_days no_limit few in_range h
