-- ===== src/TgHook/Discovery/Reached.antt =====
-- From the start of a server to a hook that finds its record and passes its handshake.
use Prim.Native.Char.{code}
use text.Mathlib.TextLemmas.{nil-append, cons-append}
use mathlib.Core.List.{append_assoc}
use telegram_mcpvscode.Prelude.{
  String, ◌<>◌, ℕ, ◌+◌, ◌≤◌, Bool, true, false, Option, none, some, List, [], ◌∷◌, ◌++◌, ◌≡◌, refl,
  ap, sym, subst, ◌∙◌, ◌⊎◌, inl, inr, All, map, length, str_eq, eq_iff, Bool-cases, if-cases,
}
use telegram_mcpvscode.Prelude.Lists.{find_by}
use telegram_mcpvscode.Prelude.Options.{or_else}
use telegram_mcpvscode.LocalPipe.Auth.{
  Bytes, Ending, ok, auth_prefix, consume_auth_line, max_auth_line_bytes,
}
use telegram_mcpvscode.LocalPipe.Auth.Handshake.{IsGraphic, consume_auth_line_accepts}
use telegram_mcpvscode.LocalPipe.Server.{connected, run_pipe_server, start, hand}
use telegram_mcpvscode.LocalPipe.Discovery.{
  DiscoveryRecord, Files, put, file_name, written, Startup, record_of, listening, as_bytes,
}
use telegram_mcpvscode.TgHook.Discovery.{
  File, load_entries, pick_record, has_session, parsed, Loaded,
}

-- What a hook reads of the directory: each file by its name.
abbrev pub listed : String × String → File
listed (name, text) = record { path = name; content = some text }

-- The line that `connect` sends first.
unfoldable pub auth_line : String → String
auth_line token = "AUTH " <> (token <> "\n")

as_bytes-append : (s t : String) → as_bytes (s <> t) ≡ as_bytes s ++ as_bytes t
as_bytes-append String.[] t = rw (nil-append t)
as_bytes-append (String.◌∷◌ c s) t =
    rw (cons-append c s t) (ap (◌∷◌ (code c)) (as_bytes-append s t))

auth_line_bytes :
    (token : String) (rest : Bytes)
    → as_bytes (auth_line token) ++ rest ≡ auth_prefix ++ (as_bytes token ++ (10 ∷ rest))
unfolding auth_line
auth_line_bytes token rest =
    rw (as_bytes-append "AUTH " (token <> "\n"), as_bytes-append token "\n")
      (ap (λ l. auth_prefix ++ l) (append_assoc (as_bytes token) (10 ∷ []) rest))

module _ (from_slice : String → Option DiscoveryRecord) (process_alive : ℕ → Bool) where
  abbrev pub loaded : Files → List DiscoveryRecord
  loaded fs = (load_entries from_slice process_alive (map listed fs)).records

  -- The text holds no record of the session.
  abbrev pub NotOf : String → Option DiscoveryRecord → Type 0
  NotOf sid none = Unit
  NotOf sid (some r) = has_session sid r ≡ false

  -- No file of another name holds a record of the session.
  abbrev pub AloneIn : String → String → Files → Type 0
  AloneIn sid name fs = All (λ (n, text). (n ≡ name) ⊎ NotOf sid (from_slice text)) fs

  entry-find :
      (sid n text : String) (r : Option DiscoveryRecord) (rest : Loaded)
      → NotOf sid r
      → find_by (has_session sid) (parsed from_slice process_alive r n rest).records
        ≡ find_by (has_session sid) rest.records
  unfolding find_by
  entry-find sid n text none rest other = refl
  entry-find sid n text (some r) rest other =
      if-cases
        (λ (l : Loaded).
          find_by (has_session sid) l.records ≡ find_by (has_session sid) rest.records)
        (process_alive r.pid) (λ alive. rw other refl) (λ dead. refl)

  own-find :
      (sid n : String) (o : Option DiscoveryRecord) (r : DiscoveryRecord) (rest : Loaded)
      → o ≡ some r
      → process_alive r.pid ≡ true
      → has_session sid r ≡ true
      → find_by (has_session sid) (parsed from_slice process_alive o n rest).records ≡ some r
  unfolding find_by
  own-find sid n o r rest e alive mine = rw e (rw alive (rw (mine, find_by)))

  found_put :
      (sid name text : String) (r : DiscoveryRecord) (fs : Files)
      → from_slice text ≡ some r
      → process_alive r.pid ≡ true
      → has_session sid r ≡ true
      → AloneIn sid name fs
      → find_by (has_session sid) (loaded (put name text fs)) ≡ some r
  unfolding put load_entries
  found_put sid name text r [] parses alive mine alone =
      own-find sid name (from_slice text) r (load_entries from_slice process_alive []) parses alive
        mine
  found_put sid name text r ((n, old) ∷ fs) parses alive mine (own, alone) =
      elim (Bool-cases (str_eq n name)) [
        | inl same ↦ rw same (
            own-find sid n (from_slice text) r
              (load_entries from_slice process_alive (map listed fs)) parses alive mine)
        | inr other ↦ rw other (
            entry-find sid n old (from_slice old)
              (load_entries from_slice process_alive (map listed (put name text fs)))
              (not_own other own)
            ∙ found_put sid name text r fs parses alive mine alone)
      ]
    where
      not_own :
          str_eq n name ≡ false
          → (n ≡ name) ⊎ NotOf sid (from_slice old)
          → NotOf sid (from_slice old)
      not_own other (inl e) = cc (other, (eq_iff n name).1 e)
      not_own other (inr h) = h

pick_record_session :
    (records : List DiscoveryRecord) (sid : String) (chain : List ℕ) {r : DiscoveryRecord}
    → find_by (has_session sid) records ≡ some r
    → pick_record records (some sid) chain ≡ some r
unfolding pick_record find_by
pick_record_session records sid chain h = rw (h, or_else)

first_handed :
    (token stream rest : Bytes) (secured : Bool) (ending : Ending)
    → consume_auth_line token stream ending ≡ ok rest
    → (run_pipe_server token secured (connected stream ending ∷ []) start).handed
      ≡ record { stream = stream; rest = rest } ∷ []
unfolding run_pipe_server
first_handed token stream rest secured ending h = rw (h, hand)

listening-put :
    (to_string_pretty : DiscoveryRecord → Option String) (s : Startup) (fs : Files) (text : String)
    → to_string_pretty (record_of s) ≡ some text
    → (listening to_string_pretty written s fs).1 ≡ put (file_name s.pid) text fs
unfolding listening
listening-put to_string_pretty s fs text h = rw h refl

has_session-record_of :
    (s : Startup) (sid : String) → s.session_id ≡ some sid → has_session sid (record_of s) ≡ true
unfolding record_of
has_session-record_of s sid h = rw h ((eq_iff sid sid).1 refl)

module _ (to_string_pretty : DiscoveryRecord → Option String)
    (from_slice : String → Option DiscoveryRecord) (process_alive : ℕ → Bool) (s : Startup) where
  -- The record of the server is picked, and a connection that opens with its token is handed on.
  pub record IsReached (sid : String) (fs : Files) : Type 0 where
    pub picked :
        (chain : List ℕ)
        → pick_record
            (loaded from_slice process_alive (listening to_string_pretty written s fs).1)
            (some sid)
            chain
          ≡ some (record_of s)
    pub handed_on :
        (secured : Bool) (rest : Bytes) (ending : Ending)
        → let stream = as_bytes (auth_line (record_of s).token) ++ rest in
          (run_pipe_server (as_bytes s.token) secured (connected stream ending ∷ []) start).handed
          ≡ record { stream = stream; rest = rest } ∷ []

  -- When the record of a server prints to a text that reads back, its process is alive, its session
  -- is that of the hook, no file of another name has a record of that session, and the token is of
  -- printable ASCII characters and short enough for the limit of the line, then after the record is
  -- written the hook picks it, whatever its ancestry, and the server hands on a connection that opens
  -- with `AUTH `, the token and a newline, with all that follows.
  pub listening-IsReached :
      (sid text : String) (fs : Files)
      → to_string_pretty (record_of s) ≡ some text
      → from_slice text ≡ some (record_of s)
      → process_alive s.pid ≡ true
      → s.session_id ≡ some sid
      → AloneIn from_slice process_alive sid (file_name s.pid) fs
      → All IsGraphic (as_bytes s.token)
      → length (as_bytes s.token) + 5 ≤ max_auth_line_bytes
      → IsReached sid fs
  unfolding record_of
  listening-IsReached sid text fs prints parses alive mine alone graphic short = record {
    picked = λ chain.
        subst
          (λ files.
            pick_record (loaded from_slice process_alive files) (some sid) chain
            ≡ some (record_of s))
          (sym (listening-put to_string_pretty s fs text prints)) (found_first chain);
    handed_on = λ secured rest ending. first_handed (as_bytes s.token) _ rest secured ending (
        rw (auth_line_bytes s.token rest)
          (consume_auth_line_accepts (as_bytes s.token) rest ending graphic short));
  }
    where
      found_first :
          (chain : List ℕ)
          → pick_record
              (loaded from_slice process_alive (put (file_name s.pid) text fs))
              (some sid)
              chain
            ≡ some (record_of s)
      found_first chain = pick_record_session _ sid chain (
          found_put from_slice process_alive sid (file_name s.pid) text (record_of s) fs parses
            alive (has_session-record_of s sid mine) alone)
