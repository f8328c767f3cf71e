-- ===== src/Updater/Polling/Backoff.antt =====
-- The delay after errors of `getUpdates`.
use Prim.Native.Nat.{◌^◌}
use native.Mathlib.Nat.{pow-suc}
use telegram_mcpvscode.Prelude.{
  ℕ, zero, suc, ◌*◌, ◌≤◌, min, ℤ, Bool, true, false, Option, List, [], ◌∷◌, ◌≡◌, refl, ap, ◌∙◌,
  arith, All, length, map, Bool-cases, leb, inl, inr,
}
use telegram_mcpvscode.Json.Serde.{Serde}
use telegram_mcpvscode.TgClient.Types.{TgClientError, rate_limited, refused}
use telegram_mcpvscode.Updater.Polling.{Poller, round, rounds, twice_up_to_30}

abbrev pub is_rate_limit : TgClientError → Bool
is_rate_limit (rate_limited n) = true
is_rate_limit _ = false

pow_pos : (n : ℕ) → 1 ≤ 2 ^ n
pow_pos zero = omega arith
pow_pos (suc n) = rw pow-suc (omega (arith, pow_pos n))

le-mul_pos : (b k : ℕ) → 1 ≤ k → b ≤ b * k
le-mul_pos b k h = grind arith

double_and_cap : (b k : ℕ) → 1 ≤ k → min (min (b * 2) 30 * k) 30 ≡ min (b * (k * 2)) 30
double_and_cap b k h = elim (Bool-cases (leb b 15)) [
  | inl small ↦ let e : min (b * 2) 30 ≡ b * 2 = ground arith in rw e (omega arith)
  | inr big ↦
      let e : min (b * 2) 30 ≡ 30 = ground arith in
      let bound : 16 ≤ b = ground arith in rw e (omega (arith, le-mul_pos b k h))
]

module _ (serde : Serde) (allowed : Option (List ℤ)) where
  backoff_doubles :
      (e : TgClientError) (p : Poller)
      → is_rate_limit e ≡ false
      → round serde allowed (refused e) p
        ≡ (record p { backoff = twice_up_to_30 serde allowed p.backoff }, p.backoff)
  unfolding round
  backoff_doubles (rate_limited n) p h = cc
  backoff_doubles _ p h = refl

  -- From a delay of at most 30 seconds, after errors in a row that are no rate limits the delay has
  -- doubled with each, up to 30 seconds, and neither the offset nor the store has changed.
  pub backoff_after_errors :
      (errors : List TgClientError) (p : Poller)
      → p.backoff ≤ 30
      → All (λ e. is_rate_limit e ≡ false) errors
      → rounds serde allowed (map refused errors) p
        ≡ record p { backoff = min (p.backoff * 2 ^ length errors) 30 }
  unfolding rounds
  backoff_after_errors [] p small h =
      ap (λ b. record p { backoff = b })
        (let e : p.backoff ≡ min (p.backoff * 1) 30 = omega arith in e)
  backoff_after_errors (e ∷ errors) p small (he, h) =
      ap (λ r. rounds serde allowed (map refused errors) r.0) (backoff_doubles e p he)
      ∙ backoff_after_errors errors (record p { backoff = twice_up_to_30 serde allowed p.backoff })
          (omega arith) h
      ∙ ap (λ b. record p { backoff = b })
          (rw pow-suc (double_and_cap p.backoff (2 ^ length errors) (pow_pos (length errors))))
