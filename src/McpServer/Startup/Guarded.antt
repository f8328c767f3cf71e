-- ===== src/McpServer/Startup/Guarded.antt =====
-- What a server that runs has from its configuration, and what its tools may do with it.
use telegram_mcpvscode.Prelude.{
  String, ◌≤◌, ℤ, Bool, true, false, Option, none, some, List, [], ◌∷◌, ◌≡◌, refl, subst, ◌∙◌, inl,
  inr, All, Bool-cases, Option-cases,
}
use telegram_mcpvscode.Json.Serde.{Serde}
use telegram_mcpvscode.Aliases.{lookup}
use telegram_mcpvscode.History.Listing.{Fts}
use telegram_mcpvscode.McpServer.Config.{
  AliasOrId, id, name, Config, Checked, validate, resolved_token, resolve_entry, resolve_id_list,
  allow_list,
}
use telegram_mcpvscode.McpServer.Config
use telegram_mcpvscode.McpServer.Resolving.{validate_lem}
use telegram_mcpvscode.McpServer.Retention.{Cli, usage, config, needs_path, unknown, parse_cli}
use telegram_mcpvscode.McpServer.Wire.{World}
use telegram_mcpvscode.McpServer.Calls.{ToolCall, call_tool}
use telegram_mcpvscode.McpServer.Confined.{IsAllowed}
use telegram_mcpvscode.McpServer.Access.{call_tool_confined}
use telegram_mcpvscode.McpServer.Startup.{
  Host, StartError, unreadable, malformed, Start, ok, err, or_fail, ◌>>=◌, checked, load, start,
  Running, UpdaterConfig, updater_of, api_base_of, client_new, open_history, running, exit_of, run,
  main,
}
use telegram_mcpvscode.McpServer.Startup.Errors.{bind_ok, ok_is, checked-eq-ok}

-- The chat that an entry of an access list stands for.
abbrev pub Denotes : List (String × ℤ) → AliasOrId → ℤ → Type 0
Denotes aliases (id n) c = c ≡ n
Denotes aliases (name n) c = lookup n aliases ≡ some c

abbrev pub DenoteAll : List (String × ℤ) → List AliasOrId → List ℤ → Type 0
DenoteAll aliases [] [] = Unit
DenoteAll aliases (e ∷ es) (c ∷ cs) = Denotes aliases e c × DenoteAll aliases es cs
DenoteAll aliases _ _ = ⊥

-- An access list with no entries limits nothing; any other is the list of the chats of its entries.
abbrev pub IsLimit : List (String × ℤ) → List AliasOrId → Option (List ℤ) → Type 0
IsLimit aliases [] none = Unit
IsLimit aliases (e ∷ es) (some chats) = DenoteAll aliases (e ∷ es) chats
IsLimit aliases _ _ = ⊥

-- The updater runs if it is enabled, within the limits of its section.
abbrev pub IsUpdater : Config → Bool → Option UpdaterConfig → Type 0
IsUpdater cfg false none = Unit
IsUpdater cfg true (some u) =
    (1 ≤ u.poll_timeout_secs)
    × (u.poll_timeout_secs ≤ 50)
    × IsLimit cfg.aliases cfg.access.allowed_chats u.allowed_chats
IsUpdater cfg _ _ = ⊥

-- The tools that the clients call, one after another.
pub calls_made : Serde → Fts → Bool → Running → List ToolCall → World → World
calls_made serde fts windows r [] w = w
calls_made serde fts windows r (c ∷ cs) w =
    calls_made serde fts windows r cs (call_tool serde fts windows r.state c w).1

pub record IsGuarded (cfg : Config) (r : Running) : Type 0 where
  pub targets : IsLimit cfg.aliases cfg.access.allowed_send_targets r.state.allowed_send_targets
  pub updater : IsUpdater cfg cfg.updater.enabled r.updater
  pub confined :
      (serde : Serde) (fts : Fts) (windows : Bool) (calls : List ToolCall) (chats : List ℤ)
      → r.state.allowed_send_targets ≡ some chats
      → All
          (IsAllowed chats)
          (calls_made serde fts windows r calls (record { conn = r.store; requests = [] })).requests

calls_made_confined :
    (serde : Serde) (fts : Fts) (windows : Bool) (r : Running) (chats : List ℤ)
    → r.state.allowed_send_targets ≡ some chats
    → (calls : List ToolCall) (w : World) → All (IsAllowed chats) w.requests
    → All (IsAllowed chats) (calls_made serde fts windows r calls w).requests
unfolding calls_made
calls_made_confined serde fts windows r chats e [] w h = h
calls_made_confined serde fts windows r chats e (c ∷ cs) w h =
    calls_made_confined serde fts windows r chats e cs _
      (call_tool_confined serde fts windows r.state chats c w e h)

resolve_entry-Denotes :
    (aliases : List (String × ℤ)) (e : AliasOrId) (c : ℤ)
    → resolve_entry aliases e ≡ Config.ok c
    → Denotes aliases e c
unfolding resolve_entry
resolve_entry-Denotes aliases (id n) c h = cc h
resolve_entry-Denotes aliases (name n) c h = elim (Option-cases (lookup n aliases)) [
  | inl unset ↦ let f = rw unset at h in cc f
  | inr (found, set) ↦ let f = rw set at h in set ∙ cc f
]

checked_bind :
    {A B : Type 0} (m : Checked A) (f : A → Checked B) (b : B)
    → Config.◌>>=◌ m f ≡ Config.ok b
    → (a : A) × (m ≡ Config.ok a) × (f a ≡ Config.ok b)
checked_bind (Config.ok a) f b h = (a, refl, h)
checked_bind (Config.err e) f b h = cc h

resolve_id_list-DenoteAll :
    (aliases : List (String × ℤ)) (es : List AliasOrId) (chats : List ℤ)
    → resolve_id_list aliases es ≡ Config.ok chats
    → DenoteAll aliases es chats
unfolding resolve_id_list
resolve_id_list-DenoteAll aliases [] [] h = tt
resolve_id_list-DenoteAll aliases [] (c ∷ cs) h = cc h
resolve_id_list-DenoteAll aliases (e ∷ es) chats h =
    let (c, first, h1) = checked_bind (resolve_entry aliases e) _ chats h in
    let (cs, rest, h2) = checked_bind (resolve_id_list aliases es) _ chats h1 in
    let is : (c ∷ cs) ≡ chats = cc h2 in
    subst (DenoteAll aliases (e ∷ es)) is
      (resolve_entry-Denotes aliases e c first, resolve_id_list-DenoteAll aliases es cs rest)

allow_list-IsLimit :
    (aliases : List (String × ℤ)) (es : List AliasOrId) (limit : Option (List ℤ))
    → allow_list aliases es ≡ Config.ok limit
    → IsLimit aliases es limit
unfolding allow_list
allow_list-IsLimit aliases [] limit h =
    let is : none ≡ limit = cc h in subst (IsLimit aliases []) is tt
allow_list-IsLimit aliases (e ∷ es) limit h =
    let (chats, all, h1) = checked_bind (resolve_id_list aliases (e ∷ es)) _ limit h in
    let is : some chats ≡ limit = cc h1 in
    subst (IsLimit aliases (e ∷ es)) is (resolve_id_list-DenoteAll aliases (e ∷ es) chats all)

or_fail-eq-ok :
    {A : Type 0} (e : StartError) (o : Option A) (a : A) → or_fail e o ≡ ok a → o ≡ some a
or_fail-eq-ok e none a h = cc h
or_fail-eq-ok e (some x) a h = let is : x ≡ a = cc h in cc is

module _ (h : Host) where
  updater_of-IsUpdater :
      (cfg : Config) (o : Option UpdaterConfig)
      → validate h.exists cfg ≡ Config.ok tt
      → updater_of h cfg ≡ ok o
      → IsUpdater cfg cfg.updater.enabled o
  updater_of-IsUpdater cfg o valid given = elim (Bool-cases cfg.updater.enabled) [
    | inl on ↦
        let (at_least, at_most, _, _) = validate_lem h.exists cfg valid in
        rw on (
          bind_ok (IsUpdater cfg true) (checked (allow_list cfg.aliases cfg.access.allowed_chats)) _
            (λ limit all. ok_is (IsUpdater cfg true) _ (
              at_least,
              at_most,
              allow_list-IsLimit cfg.aliases cfg.access.allowed_chats limit
                  (checked-eq-ok (allow_list cfg.aliases cfg.access.allowed_chats) limit all),
            ))
            o (rw on at given))
    | inr off ↦ rw off (ok_is (IsUpdater cfg false) none tt o (rw off at given))
  ]

  start-IsGuarded :
      (cfg : Config) (r : Running)
      → validate h.exists cfg ≡ Config.ok tt
      → start h cfg ≡ ok r
      → IsGuarded cfg r
  unfolding start
  start-IsGuarded cfg r valid =
      let P = IsGuarded cfg in
      bind_ok P (checked (resolved_token h.env cfg)) _
        (λ token _. bind_ok P (api_base_of h cfg.bot.api_base_url) _ (λ base _.
          bind_ok P (client_new h.builds_http_client token base) _ (λ client _.
            bind_ok P (open_history h cfg.storage_path) _ (λ store _.
              bind_ok P (checked (allow_list cfg.aliases cfg.access.allowed_send_targets)) _
                (λ limit targets. bind_ok P (updater_of h cfg) _ (λ updater updates.
                  ok_is P _ (record {
                    targets =
                        allow_list-IsLimit cfg.aliases cfg.access.allowed_send_targets limit
                          (checked-eq-ok _ limit targets);
                    updater = updater_of-IsUpdater cfg updater valid updates;
                    confined = λ serde fts windows calls chats e.
                        calls_made_confined serde fts windows _ chats e calls _ tt;
                  })))))))
        r

  -- The configuration is the one in the file that the arguments name, and it was accepted.
  pub record IsLoaded (cfg : Config) : Type 0 where
    pub path : String
    pub raw : String
    pub named : parse_cli h.argv ≡ config (some path)
    pub there : h.read_to_string path ≡ some raw
    pub parses : h.from_toml raw ≡ some cfg
    pub valid : validate h.exists cfg ≡ Config.ok tt

  load-IsLoaded :
      (path : String) (cfg : Config)
      → parse_cli h.argv ≡ config (some path)
      → load h path ≡ ok cfg
      → IsLoaded cfg
  unfolding load
  load-IsLoaded path cfg named =
      bind_ok IsLoaded (or_fail unreadable (h.read_to_string path)) _
        (λ raw there. bind_ok IsLoaded (or_fail malformed (h.from_toml raw)) _ (λ found parses.
          bind_ok IsLoaded (checked (validate h.exists found)) _ (λ u valid.
            ok_is IsLoaded found (record {
              path = path;
              raw = raw;
              named = named;
              there = or_fail-eq-ok unreadable (h.read_to_string path) raw there;
              parses = or_fail-eq-ok malformed (h.from_toml raw) found parses;
              valid = checked-eq-ok (validate h.exists found) u valid;
            }))))
        cfg

  -- The file was read and accepted, and the server started on it.
  exit_of-eq-running : (m : Start Running) (r : Running) → exit_of h m ≡ running r → m ≡ ok r
  exit_of-eq-running (ok x) r runs = let e : x ≡ r = cc runs in cc e
  exit_of-eq-running (err e) r runs = cc runs

  run-IsGuarded :
      (cli : Cli) (r : Running)
      → parse_cli h.argv ≡ cli
      → run h cli ≡ running r
      → (cfg : Config) × IsLoaded cfg × IsGuarded cfg r
  run-IsGuarded usage r is runs = cc runs
  run-IsGuarded needs_path r is runs = cc runs
  run-IsGuarded (unknown argument) r is runs = cc runs
  run-IsGuarded (config none) r is runs = cc runs
  run-IsGuarded (config (some path)) r is runs =
      bind_ok (λ x. (cfg : Config) × IsLoaded cfg × IsGuarded cfg x) (load h path) (start h)
        (λ cfg loads x started.
          let loaded = load-IsLoaded path cfg is loads in
          (cfg, loaded, start-IsGuarded cfg x loaded.valid started))
        r (exit_of-eq-running (load h path >>= start h) r runs)

  -- If `main` comes to serve, it read and accepted the configuration in the file that the arguments
  -- name. An empty list of send targets then limits nothing, and any other gives the chats that its
  -- entries stand for. The updater runs exactly if it is enabled, with a timeout from 1 to 50 seconds
  -- and its list of chats made in the same way. Where there is a list of send targets, every request
  -- that acts on a chat is for a chat of the list, whatever tools are called one after another.
  pub main-IsGuarded :
      (r : Running) → main h ≡ running r → (cfg : Config) × IsLoaded cfg × IsGuarded cfg r
  unfolding main
  main-IsGuarded r runs = run-IsGuarded (parse_cli h.argv) r refl runs
