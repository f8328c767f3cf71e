-- ===== src/TgHook/LocalInput/Present.antt =====
-- When the watcher takes the user to be at the host's window.
use telegram_mcpvscode.Prelude.{
  ℕ, ◌+◌, ◌^◌, ◌%◌, ◌≤◌, ◌<◌, ◌≢◌, Bool, true, false, not, some, List, [], ◌∷◌, ◌++◌, ◌≡◌, refl, ap,
  ◌↔◌, inl, inr, arith, All, Bool-cases,
}
use telegram_mcpvscode.LocalPipe.Process.{Snapshot, contains, ancestry_in}
use telegram_mcpvscode.TgHook.LocalInput.{
  System, LocalInputWatcher, wrapping_sub, is_generic_ancestor, nearest_is_host,
  focused_window_is_host, millis_since_input, refreshed, focused, user_active,
}

-- The first process of the chain that is an ancestor of the hook is no generic one.
abbrev pub IsHost : Snapshot → List ℕ → List ℕ → Type 0
IsHost snap hosts chain =
    (front : List ℕ) × (nearest : ℕ) × (back : List ℕ) × (chain ≡ front ++ (nearest ∷ back))
    × All (λ pid. contains hosts pid ≡ false) front
    × (contains hosts nearest ≡ true)
    × (is_generic_ancestor snap nearest ≡ false)

IsHost-cons :
    (snap : Snapshot) (hosts : List ℕ) (pid : ℕ) (pids : List ℕ)
    → contains hosts pid ≡ false
    → IsHost snap hosts pids
    → IsHost snap hosts (pid ∷ pids)
IsHost-cons snap hosts pid pids other (front, nearest, back, e, others, shared, own) =
    (pid ∷ front, nearest, back, ap (◌∷◌ pid) e, (other, others), shared, own)

not-true : (b : Bool) → not b ≡ true → b ≡ false
not-true b h = ground arith

nearest_is_host_sound :
    (snap : Snapshot) (chain hosts : List ℕ)
    → nearest_is_host snap chain hosts ≡ true
    → IsHost snap hosts chain
unfolding nearest_is_host
nearest_is_host_sound snap [] hosts h = cc
nearest_is_host_sound snap (pid ∷ pids) hosts h = elim (Bool-cases (contains hosts pid)) [
  | inl shared ↦
      ([], pid, pids, refl, tt, shared, not-true (is_generic_ancestor snap pid) (rw shared at h))
  | inr other ↦
      IsHost-cons snap hosts pid pids other (nearest_is_host_sound snap pids hosts (rw other at h))
]

nearest_is_host_complete :
    (snap : Snapshot) (hosts front back : List ℕ) (nearest : ℕ)
    → All (λ pid. contains hosts pid ≡ false) front
    → contains hosts nearest ≡ true
    → is_generic_ancestor snap nearest ≡ false
    → nearest_is_host snap (front ++ (nearest ∷ back)) hosts ≡ true
unfolding nearest_is_host
nearest_is_host_complete snap hosts [] back nearest others shared own = rw (shared, own) refl
nearest_is_host_complete snap hosts (pid ∷ front) back nearest (other, others) shared own =
    rw other (nearest_is_host_complete snap hosts front back nearest others shared own)

-- The difference of two tick counts is the time between them, also where the counter has started again.
wrapping_sub-elapsed :
    (t elapsed : ℕ)
    → t < 2 ^ 32
    → elapsed < 2 ^ 32
    → wrapping_sub ((t + elapsed) % 2 ^ 32) t ≡ elapsed
unfolding wrapping_sub
wrapping_sub-elapsed t elapsed ht he = omega arith

focused-true :
    (system : System) (w : LocalInputWatcher)
    → ((focused system w).0 ≡ true) ↔ (
        (system.foreground_pid ≢ 0)
        × (focused_window_is_host (refreshed system w).snapshot system.foreground_pid w.host_pids
            ≡ true))
focused-true system w = ground arith

focused_window_is_host_iff :
    (snap : Snapshot) (pid : ℕ) (hosts : List ℕ)
    → (focused_window_is_host snap pid hosts ≡ true) ↔ IsHost snap hosts (ancestry_in snap pid)
unfolding focused_window_is_host
focused_window_is_host_iff snap pid hosts = (
  nearest_is_host_sound snap (ancestry_in snap pid) hosts,
  λ (front, nearest, back, e, others, shared, own).
      rw e (nearest_is_host_complete snap hosts front back nearest others shared own),
)

-- If the last input was `elapsed` milliseconds ago, less than 2 ^ 32, on a counter that starts
-- again at 2 ^ 32, the user is taken to be active exactly if that is within the threshold, a window
-- has the focus, and the nearest process of its ancestry that is one of the hook's ancestors is no
-- generic one, in the snapshot that the watcher then has.
pub user_active_iff :
    (system : System) (w : LocalInputWatcher) (time elapsed : ℕ)
    → system.last_input ≡ some time
    → time < 2 ^ 32
    → elapsed < 2 ^ 32
    → system.tick_count ≡ (time + elapsed) % 2 ^ 32
    → ((user_active system w).0 ≡ true) ↔ (
        (elapsed ≤ w.threshold_millis)
        × (system.foreground_pid ≢ 0)
        × IsHost
            (refreshed system w).snapshot
            w.host_pids
            (ancestry_in (refreshed system w).snapshot system.foreground_pid))
unfolding user_active millis_since_input
user_active_iff system w time elapsed last in_u32 less now =
    rw (last, now, wrapping_sub-elapsed time elapsed in_u32 less)
      (grind (
        arith,
        focused-true system w,
        focused_window_is_host_iff (refreshed system w).snapshot system.foreground_pid w.host_pids,
      ))
