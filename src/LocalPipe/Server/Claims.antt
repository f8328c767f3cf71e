-- ===== src/LocalPipe/Server/Claims.antt =====
-- With which options the instances of the pipe are created, and how long the loop sleeps.
use telegram_mcpvscode.Prelude.{
  ℕ, zero, suc, ◌≤◌, ◌^◌, min, Bool, true, false, List, [], ◌∷◌, ◌++◌, ◌≡◌, refl, ◌⊎◌, inl, inr,
  arith, All, All-append, if-cases,
}
use telegram_mcpvscode.LocalPipe.Auth.{Bytes}
use telegram_mcpvscode.LocalPipe.Server.{
  ServerOptions, Event, create_failed, connect_failed, connected, Listener, start, react, accept,
  run_pipe_server, build_server, backoff_sleep, saturating_succ, max_backoff_secs,
}

abbrev pub Claims : Bool → ServerOptions → Type 0
Claims first o = (o.first_pipe_instance ≡ first) × (o.reject_remote_clients ≡ true)

-- The first attempt claims the name, and no other does; none lets remote clients in.
abbrev pub ClaimsOnce : List ServerOptions → Type 0
ClaimsOnce [] = Unit
ClaimsOnce (o ∷ os) = Claims true o × All (Claims false) os

abbrev pub IsSleep : ℕ → Type 0
IsSleep secs = (2 ≤ secs) × (secs ≤ max_backoff_secs)

abbrev pub IsBounded : Listener → Type 0
IsBounded l = ClaimsOnce l.attempts × All IsSleep l.slept

abbrev Claimed : List ServerOptions → Type 0
Claimed [] = ⊥
Claimed (o ∷ os) = Claims true o × All (Claims false) os

-- Either nothing was attempted yet, or the first attempt is made: the loop is over, or the name is claimed.
abbrev Settled : Listener → Type 0
Settled l =
    ((l.first ≡ true) × (l.attempts ≡ []))
    ⊎ (((l.first ≡ false) ⊎ (l.stopped ≡ true)) × Claimed l.attempts)

abbrev HasSlept : Listener → Type 0
HasSlept l = All IsSleep l.slept

pow_two : (n : ℕ) → 2 ≤ 2 ^ suc n
pow_two zero = omega arith
pow_two (suc n) = omega (arith, pow_two n)

pow_two_pos : (n : ℕ) → 1 ≤ n → 2 ≤ 2 ^ n
pow_two_pos zero h = omega arith
pow_two_pos (suc n) h = pow_two n

saturating_succ_pos : (n : ℕ) → 1 ≤ saturating_succ n
saturating_succ_pos n = ground arith

backoff_sleep-IsSleep : (n : ℕ) → IsSleep ((backoff_sleep n).1)
unfolding backoff_sleep
backoff_sleep-IsSleep n = (pow_two_min, omega arith)
  where
    pow_two_min : 2 ≤ min (2 ^ min (saturating_succ n) 5) max_backoff_secs
    pow_two_min =
        omega
          (arith, pow_two_pos (min (saturating_succ n) 5) (omega (arith, saturating_succ_pos n)))

Claimed-append :
    (os : List ServerOptions) (o : ServerOptions)
    → Claimed os
    → Claims false o
    → Claimed (os ++ (o ∷ []))
Claimed-append [] o c h = absurd c
Claimed-append (x ∷ os) o (c, cs) h = (c, All-append (Claims false) os _ cs (h, tt))

Settled-ClaimsOnce : (l : Listener) → Settled l → ClaimsOnce l.attempts
Settled-ClaimsOnce l (inl (first, none_yet)) = rw none_yet tt
Settled-ClaimsOnce l (inr (_, claimed)) = go l.attempts claimed
  where
    go : (os : List ServerOptions) → Claimed os → ClaimsOnce os
    go [] c = absurd c
    go (o ∷ os) c = c

module _ (token : Bytes) (secured : Bool) where
  react-Settled :
      (e : Event) (l : Listener) → Claimed l.attempts → Settled (react token secured e l)
  unfolding backoff_sleep
  react-Settled create_failed l c =
      if-cases Settled l.first (λ first. inr (inr refl, c)) (λ later. inr (inl later, c))
  react-Settled connect_failed l c = inr (inl refl, c)
  react-Settled (connected stream ending) l c = inr (inl refl, c)

  attempt-Claimed :
      (l : Listener)
      → Settled l
      → l.stopped ≡ false
      → Claimed (l.attempts ++ (build_server l.first secured ∷ []))
  unfolding build_server
  attempt-Claimed l (inl (first, none_yet)) going = rw none_yet (rw first ((refl, refl), tt))
  attempt-Claimed l (inr (inl first, c)) going = Claimed-append l.attempts _ c (first, refl)
  attempt-Claimed l (inr (inr stopped, c)) going = cc

  accept-Settled : (e : Event) (l : Listener) → Settled l → Settled (accept token secured e l)
  unfolding accept
  accept-Settled e l h =
      if-cases Settled l.stopped (λ over. h)
        (λ going. react-Settled e _ (attempt-Claimed l h going))

  react-HasSlept : (e : Event) (l : Listener) → HasSlept l → HasSlept (react token secured e l)
  unfolding backoff_sleep
  react-HasSlept create_failed l h =
      if-cases HasSlept l.first (λ first. h)
        (λ later. All-append IsSleep l.slept _ h (backoff_sleep-IsSleep l.consecutive_failures, tt))
  react-HasSlept connect_failed l h = All-append IsSleep l.slept _ h (backoff_sleep-IsSleep 0, tt)
  react-HasSlept (connected stream ending) l h = h

  accept-HasSlept : (e : Event) (l : Listener) → HasSlept l → HasSlept (accept token secured e l)
  unfolding accept
  accept-HasSlept e l h = if-cases HasSlept l.stopped (λ over. h) (λ going. react-HasSlept e _ h)

  run-IsBounded :
      (events : List Event) (l : Listener)
      → Settled l
      → All IsSleep l.slept
      → IsBounded (run_pipe_server token secured events l)
  unfolding run_pipe_server
  run-IsBounded [] l s h = (Settled-ClaimsOnce l s, h)
  run-IsBounded (e ∷ es) l s h =
      run-IsBounded es (accept token secured e l) (accept-Settled e l s) (accept-HasSlept e l h)

  -- Whatever happens in the accept loop from its start, the first instance that it tries to create
  -- claims the name of the pipe and no later one does, all reject remote clients, and every sleep
  -- is of 2 to 30 seconds.
  pub run_pipe_server-IsBounded :
      (events : List Event) → IsBounded (run_pipe_server token secured events start)
  run_pipe_server-IsBounded events = run-IsBounded events start (inl (refl, refl)) tt
