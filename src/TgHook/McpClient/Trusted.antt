-- ===== src/TgHook/McpClient/Trusted.antt =====
-- To whom the token is sent, and which line is taken for an answer.
use telegram_mcpvscode.Prelude.{
  String, ℕ, zero, suc, ◌≤◌, Bool, Option, none, some, List, [], ◌∷◌, ◌++◌, take, Bool-cases, ◌≡◌,
  refl, ◌⊎◌, inl, inr, arith, All, ap, ◌==◌, ==_iff, length, if-cases,
}
use telegram_mcpvscode.Json.{Value}
use telegram_mcpvscode.Json.Serde.{Serde}
use telegram_mcpvscode.TgHook.McpClient.{
  Attempt, opened, busy, refused, Line, auth, message, Step, open_with_retry, pipe_open_retries,
  connect, verified, fresh, then_do, write, request, initialize, greet, rpc, initialize_params,
  initialized,
}

-- The pipe was busy, at most `n` times in a row, and then it was opened on the process.
abbrev pub OpensOn : ℕ → List Attempt → ℕ → Type 0
OpensOn n attempts pid =
    (tries : List Attempt) × (rest : List Attempt) × (attempts
      ≡ tries ++ (opened (some pid) ∷ rest))
    × All (λ a. a ≡ busy) tries
    × (length tries ≤ n)

open_with_retry_sound :
    (n : ℕ) (attempts : List Attempt) (pid : ℕ)
    → open_with_retry (suc n) attempts ≡ some (some pid)
    → OpensOn n attempts pid
unfolding open_with_retry
open_with_retry_sound n [] pid h = cc
open_with_retry_sound n (opened server ∷ attempts) pid h =
    let e : server ≡ some pid = cc h in
    ([], attempts, ap (λ s. opened s ∷ attempts) e, tt, omega arith)
open_with_retry_sound zero (busy ∷ attempts) pid h = cc
open_with_retry_sound (suc n) (busy ∷ attempts) pid h =
    let (tries, rest, e, all_busy, few) = open_with_retry_sound n attempts pid h in
    (busy ∷ tries, rest, ap (◌∷◌ busy) e, (refl, all_busy), omega (arith, few))
open_with_retry_sound n (refused ∷ attempts) pid h = cc

-- What `connect` writes, if it comes to the end: the token, and then the two messages.
abbrev pub greeting : String → String → List Line
greeting version token =
    auth token ∷ message (rpc 1 "initialize" (initialize_params version)) ∷ message initialized ∷ []

-- The lines that were written are the first of the greeting, and all three if the step succeeded.
abbrev pub Greets : String → String → Step (Unit {0}) → Type 0
Greets version token step =
    (n : ℕ) × (step.1.written ≡ take n (greeting version token)) × ((step.0 ≡ none) ⊎ (n ≡ 3))

module _ (serde : Serde) (accepts : List Line → Bool) where
  abbrev pub WritesTo : String → String → List Attempt → ℕ → Step (Unit {0}) → Type 0
  WritesTo version token attempts expected step =
      ((step.0 ≡ none) × (step.1.written ≡ []))
      ⊎ (OpensOn 9 attempts expected × Greets version token step)

  notified :
      (version token : String) (o : Option Value) (id : ℕ) (lines : List (Option String))
      → Greets version token (
          then_do
            (
              o,
              record { next_id = id; written = take 2 (greeting version token); incoming = lines },
            )
            (λ _ c. write serde accepts (message initialized) c))
  notified version token none id lines = (2, refl, inl refl)
  notified version token (some v) id lines =
      elim (Bool-cases (accepts (take 2 (greeting version token)))) [
        | inl taken ↦ rw taken (3, refl, inr refl)
        | inr cut ↦ rw cut (2, refl, inl refl)
      ]

  greet_lem :
      (version token : String) (incoming : List (Option String))
      → Greets version token (greet serde accepts version token (fresh serde accepts incoming))
  unfolding initialize request
  greet_lem version token incoming = elim (Bool-cases (accepts [])) [
    | inr cut ↦ rw cut (0, refl, inl refl)
    | inl first ↦ rw first (elim (Bool-cases (accepts (auth token ∷ []))) [
      | inr cut ↦ rw cut (1, refl, inl refl)
      | inl second ↦ rw second (notified version token _ _ _)
    ])
  ]

  -- Whatever the pipe gives, `connect` fails with nothing written, or one of the first ten attempts
  -- opened the pipe on the process of the discovery record, all before it having found the pipe
  -- busy, and what was written is a part from the front of the greeting, which is the token, the
  -- request `initialize` and its notification, and all of it if `connect` succeeds.
  pub connect-WritesTo :
      (version token : String) (expected : ℕ) (attempts : List Attempt)
      (incoming : List (Option String))
      → WritesTo version token attempts expected
          (connect serde accepts version token expected attempts incoming)
  unfolding connect
  connect-WritesTo version token expected attempts incoming =
      go (open_with_retry pipe_open_retries attempts) refl
    where
      go :
          (o : Option (Option ℕ))
          → open_with_retry pipe_open_retries attempts ≡ o
          → WritesTo version token attempts expected
              (verified serde accepts version token expected o (fresh serde accepts incoming))
      go none e = inl (refl, refl)
      go (some none) e = inl (refl, refl)
      go (some (some pid)) e =
          if-cases (WritesTo version token attempts expected) (pid == expected)
            (λ same.
              let s : pid ≡ expected = (==_iff pid expected).0 same in
              inr (
                rw s at (open_with_retry_sound 9 attempts pid e),
                greet_lem version token incoming,
              ))
            (λ other. inl (refl, refl))
