-- ===== src/LocalPipe/Server.antt =====
-- The accept loop of crates/local-pipe/src/server.rs. What the system answers to each round is an
-- event: an instance of the pipe that could not be created, a client that failed to connect, or a
-- client with the bytes that it sends. The task of a connection takes no part in the loop, so its
-- outcome is recorded when it is spawned.
pub mod Claims
pub mod Handled
use telegram_mcpvscode.Prelude.{
  String, ◌<>◌, ℕ, ◌+◌, ◌-◌, ◌^◌, min, pos, Bool, true, false, List, [], ◌∷◌, ◌++◌, ◌==◌,
  if◌then◌else◌,
}
use telegram_mcpvscode.Prelude.Text.{show_ℤ}
use telegram_mcpvscode.LocalPipe.Auth.{
  AuthError, Outcome, ok, err, Ending, Bytes, consume_auth_line,
}

-- The options of `build_server`; `secured` says that the descriptor could be built.
pub record ServerOptions : Type 0 where
  pub reject_remote_clients : Bool
  pub first_pipe_instance : Bool
  pub secured : Bool

unfoldable pub build_server : Bool → Bool → ServerOptions
build_server first secured = record {
  reject_remote_clients = true;
  first_pipe_instance = first;
  secured = secured;
}

unfoldable pub pipe_path : ℕ → String
pipe_path pid = "\\\\.\\pipe\\telegrammcp-" <> show_ℤ (pos pid)

abbrev pub max_backoff_secs : ℕ
max_backoff_secs = 30

-- `saturating_add(1)` on a u32
abbrev pub saturating_succ : ℕ → ℕ
saturating_succ n = if n == (2 ^ 32 - 1) then n else n + 1

-- The counter after the sleep, and the seconds of the sleep.
unfoldable pub backoff_sleep : ℕ → ℕ × ℕ
backoff_sleep consecutive_failures =
    let n = saturating_succ consecutive_failures in (n, min (2 ^ min n 5) max_backoff_secs)

pub data Event : Type 0 where
  create_failed connect_failed : Event
  connected : Bytes → Ending → Event

-- A connection that was handed on: what its client sent, and what was left for the handler.
pub record Handed : Type 0 where
  pub stream : Bytes
  pub rest : Bytes

pub record Listener : Type 0 where
  pub first : Bool
  pub consecutive_failures : ℕ
  pub stopped : Bool
  pub attempts : List ServerOptions
  pub slept : List ℕ
  pub handed : List Handed

abbrev pub start : Listener
start = record {
  first = true;
  consecutive_failures = 0;
  stopped = false;
  attempts = [];
  slept = [];
  handed = [];
}

abbrev pub hand : Bytes → Outcome Bytes → List Handed → List Handed
hand stream (ok rest) handed = handed ++ (record { stream = stream; rest = rest } ∷ [])
hand stream (err e) handed = handed

abbrev sleep : Listener → Listener
sleep l =
    let (n, secs) = backoff_sleep l.consecutive_failures in
    record l { consecutive_failures = n; slept = l.slept ++ (secs ∷ []) }

-- An instance exists: the name is claimed, and the counter starts again.
abbrev created : Listener → Listener
created l = record l { first = false; consecutive_failures = 0 }

module _ (token : Bytes) (secured : Bool) where
  abbrev react : Event → Listener → Listener
  react create_failed l = if l.first then record l { stopped = true } else sleep l
  react connect_failed l = sleep (created l)
  react (connected stream ending) l = record (created l) {
    handed = hand stream (consume_auth_line token stream ending) l.handed;
  }

  -- One round of the loop of `run_pipe_server`.
  unfoldable pub accept : Event → Listener → Listener
  unfolding backoff_sleep build_server
  accept e l =
      if l.stopped
      then l
      else react e (record l { attempts = l.attempts ++ (build_server l.first secured ∷ []) })

  unfoldable pub run_pipe_server : List Event → Listener → Listener
  unfolding accept
  run_pipe_server [] l = l
  run_pipe_server (e ∷ es) l = run_pipe_server es (accept e l)
