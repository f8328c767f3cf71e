-- ===== src/LocalPipe/Server/Handled.antt =====
-- Which connections reach the handler.
use telegram_mcpvscode.Prelude.{
  Bool, false, List, [], ◌∷◌, ◌≡◌, refl, inl, inr, All, All-append, Bool-cases,
}
use telegram_mcpvscode.LocalPipe.Auth.{Outcome, ok, err, Bytes, consume_auth_line}
use telegram_mcpvscode.LocalPipe.Auth.Tables.{IsByte}
use telegram_mcpvscode.LocalPipe.Auth.Handshake.{Opens, consume_auth_line_sound}
use telegram_mcpvscode.LocalPipe.Server.{
  Event, create_failed, connect_failed, connected, Handed, Listener, hand, accept, run_pipe_server,
}

-- The client sent bytes.
abbrev pub SendsBytes : Event → Type 0
SendsBytes create_failed = Unit
SendsBytes connect_failed = Unit
SendsBytes (connected stream ending) = All IsByte stream

-- The client opened with the token, and the handler has all that followed.
abbrev pub IsAuthenticated : Bytes → Handed → Type 0
IsAuthenticated token h = Opens h.stream token h.rest

module _ (token : Bytes) (secured : Bool) (token_bytes : All IsByte token) where
  hand-IsAuthenticated :
      (stream : Bytes) (outcome : Outcome Bytes) (handed : List Handed)
      → ((rest : Bytes) → outcome ≡ ok rest → Opens stream token rest)
      → All (IsAuthenticated token) handed
      → All (IsAuthenticated token) (hand stream outcome handed)
  hand-IsAuthenticated stream (ok rest) handed sound h =
      All-append (IsAuthenticated token) handed _ h (sound rest refl, tt)
  hand-IsAuthenticated stream (err e) handed sound h = h

  accept-IsAuthenticated :
      (e : Event) (l : Listener)
      → SendsBytes e
      → All (IsAuthenticated token) l.handed
      → All (IsAuthenticated token) (accept token secured e l).handed
  unfolding accept
  accept-IsAuthenticated e l sends h = elim (Bool-cases l.stopped) [
    | inl over ↦ rw over h
    | inr going ↦ rw going (go e sends)
  ]
    where
      go :
          (e : Event)
          → SendsBytes e
          → All
              (IsAuthenticated token)
              (accept token secured e (record l { stopped = false })).handed
      go create_failed sends = elim (Bool-cases l.first) [ inl e ↦ rw e h | inr e ↦ rw e h ]
      go connect_failed sends = h
      go (connected stream ending) sends =
          hand-IsAuthenticated stream (consume_auth_line token stream ending) l.handed
            (λ rest ok_rest. consume_auth_line_sound token stream ending token_bytes sends ok_rest)
            h

  -- For a token and clients that send bytes, whatever happens in the accept loop: if the
  -- connections handed on so far came from clients that opened with `AUTH `, the token and a
  -- newline, and each has all that followed, so did and have all after any further events.
  pub handed-IsAuthenticated :
      (events : List Event) (l : Listener)
      → All SendsBytes events
      → All (IsAuthenticated token) l.handed
      → All (IsAuthenticated token) (run_pipe_server token secured events l).handed
  unfolding run_pipe_server
  handed-IsAuthenticated [] l sends h = h
  handed-IsAuthenticated (e ∷ es) l (s, sends) h =
      handed-IsAuthenticated es (accept token secured e l) sends (accept-IsAuthenticated e l s h)
