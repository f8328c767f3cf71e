-- ===== src/McpServer/Startup/Errors.antt =====
-- What can still stop a server whose configuration was accepted.
use telegram_mcpvscode.Prelude.{
  String, ℕ, ℤ, true, false, Option, none, some, List, ◌≡◌, refl, sym, ap, subst, ◌∙◌, ◌⊎◌, inl,
  inr, Bool-cases, Option-cases,
}
use telegram_mcpvscode.Prelude.Options.{is_some}
use telegram_mcpvscode.History.Types.{HistoryError, sqlite}
use telegram_mcpvscode.History.Conn
use telegram_mcpvscode.History.Schema.{File, migrate}
use telegram_mcpvscode.McpServer.Config.{
  AliasOrId, Config, env_not_set, Checked, validate, token_from, allow_list,
}
use telegram_mcpvscode.McpServer.Config
use telegram_mcpvscode.McpServer.Resolving.{validate_lem, validate-token}
use telegram_mcpvscode.McpServer.Startup.{
  Host, StartError, rejected, invalid_url, no_http_client, no_history, Start, ok, err, ◌>>=◌,
  checked, client_new, opened, open_file, open_history, start, api_base_of, updater_of,
}

module _ {A B : Type 0} where
  -- A value of a chain comes through its first step.
  pub bind_ok :
      (P : B → Type 0) (m : Start A) (f : A → Start B)
      → ((a : A) → m ≡ ok a → (b : B) → f a ≡ ok b → P b)
      → (b : B) → (m >>= f) ≡ ok b
      → P b
  bind_ok P (ok a) f rest b h = rest a refl b h
  bind_ok P (err e) f rest b h = cc h

  -- An error of a chain is one of its first step, or of the rest.
  bind_fault :
      (P : StartError → Type 0) (m : Start A) (f : A → Start B)
      → ((e : StartError) → m ≡ err e → P e)
      → ((a : A) → m ≡ ok a → (e : StartError) → f a ≡ err e → P e)
      → (e : StartError) → (m >>= f) ≡ err e
      → P e
  bind_fault P (ok a) f first rest e fails = rest a refl e fails
  bind_fault P (err x) f first rest e fails = first e (cc fails)

pub ok_is : {A : Type 0} (P : A → Type 0) (a : A) → P a → (b : A) → ok a ≡ ok b → P b
ok_is P a p b h = let e : a ≡ b = cc h in subst P e p

no_fault : {A : Type 0} (P : StartError → Type 0) (a : A) (e : StartError) → ok a ≡ err e → P e
no_fault P a e bad = cc bad

pub checked-eq-ok : {A : Type 0} (c : Checked A) (a : A) → checked c ≡ ok a → c ≡ Config.ok a
checked-eq-ok (Config.ok x) a h = cc
checked-eq-ok (Config.err e) a h = cc

module _ (h : Host) where
  -- A failure that the configuration does not show.
  pub data IsHostFault (cfg : Config) : StartError → Type 0 where
    missing_variable :
        (key : String)
        → cfg.bot.token_env ≡ some key
        → h.env key ≡ none
        → IsHostFault cfg (rejected (env_not_set key))
    bad_url :
        (url : String)
        → cfg.bot.api_base_url ≡ some url
        → h.parse_url url ≡ none
        → IsHostFault cfg invalid_url
    no_client : h.builds_http_client ≡ false → IsHostFault cfg no_http_client
    no_database :
        (e : HistoryError)
        → open_history h cfg.storage_path ≡ err (no_history e)
        → IsHostFault cfg (no_history e)

  token_fault :
      (cfg : Config) (named inline : Option String) (e : StartError)
      → cfg.bot.token_env ≡ named
      → (is_some inline ≡ true) ⊎ (is_some named ≡ true)
      → checked (token_from h.env named inline) ≡ err e
      → IsHostFault cfg e
  token_fault cfg (some key) inline e is source fails = elim (Option-cases (h.env key)) [
    | inl unset ↦
        let f = rw unset at fails in subst (IsHostFault cfg) (cc f) (missing_variable key is unset)
    | inr (value, set) ↦ let f = rw set at fails in cc f
  ]
  token_fault cfg none (some t) e is source fails = cc
  token_fault cfg none none e is (inl never) fails = cc
  token_fault cfg none none e is (inr never) fails = cc

  url_fault :
      (cfg : Config) (url : Option String) (e : StartError)
      → cfg.bot.api_base_url ≡ url
      → api_base_of h url ≡ err e
      → IsHostFault cfg e
  url_fault cfg none e is fails = cc
  url_fault cfg (some url) e is fails = elim (Option-cases (h.parse_url url)) [
    | inl bad ↦ let f = rw bad at fails in subst (IsHostFault cfg) (cc f) (bad_url url is bad)
    | inr (u, good) ↦ let f = rw good at fails in cc f
  ]

  client_fault :
      (cfg : Config) (token : String) (base : Option String) (e : StartError)
      → client_new h.builds_http_client token base ≡ err e
      → IsHostFault cfg e
  unfolding client_new
  client_fault cfg token base e fails = elim (Bool-cases h.builds_http_client) [
    | inl builds ↦ let f = rw builds at fails in cc f
    | inr not_built ↦
        let f = rw not_built at fails in subst (IsHostFault cfg) (cc f) (no_client not_built)
  ]

  -- A history that cannot be opened is one that the store reports.
  opened_fault :
      (file : Option File) (e : StartError)
      → open_file file ≡ err e
      → (x : HistoryError) × (e ≡ no_history x)
  opened_fault none e fails = (sqlite, sym (cc fails))
  opened_fault (some f) e fails = of_result (migrate f) fails
    where
      of_result :
          (r : Conn.Result ℕ × File) → opened r ≡ err e → (x : HistoryError) × (e ≡ no_history x)
      of_result (Conn.ok v, g) bad = absurd (cc bad)
      of_result (Conn.err x, g) bad = (x, cc bad)

  history_fault :
      (cfg : Config) (e : StartError) → open_history h cfg.storage_path ≡ err e → IsHostFault cfg e
  history_fault cfg e fails =
      let (x, is) = opened_fault (h.database cfg.storage_path) e (unfold open_history in fails) in
      subst (IsHostFault cfg) (sym is) (no_database x (fails ∙ ap err is))

  lists_resolve :
      (cfg : Config) {chats : Option (List ℤ)} (xs : List AliasOrId) (e : StartError)
      → allow_list cfg.aliases xs ≡ Config.ok chats
      → checked (allow_list cfg.aliases xs) ≡ err e
      → IsHostFault cfg e
  lists_resolve cfg xs e resolves fails = let f = rw resolves at fails in cc f

  updater_fault :
      (cfg : Config) (e : StartError)
      → validate h.exists cfg ≡ Config.ok tt
      → updater_of h cfg ≡ err e
      → IsHostFault cfg e
  updater_fault cfg e valid fails =
      let (_, _, (chats, resolves), _) = validate_lem h.exists cfg valid in
      elim (Bool-cases cfg.updater.enabled) [
        | inl on ↦
            bind_fault (IsHostFault cfg) (checked (allow_list cfg.aliases cfg.access.allowed_chats))
              _ (λ x bad. lists_resolve cfg cfg.access.allowed_chats x resolves bad)
              (λ c _ x bad. cc bad) e (rw on at fails)
        | inr off ↦ let f = rw off at fails in cc f
      ]

  -- When a configuration was accepted, the start fails only where the environment variable that it
  -- names for the token is not set, its API URL cannot be parsed, the HTTP client cannot be built, or
  -- the history cannot be opened or migrated.
  pub start-IsHostFault :
      (cfg : Config) (e : StartError)
      → validate h.exists cfg ≡ Config.ok tt
      → start h cfg ≡ err e
      → IsHostFault cfg e
  unfolding start
  start-IsHostFault cfg e valid =
      let P = IsHostFault cfg in
      let (_, _, _, (chats, resolves)) = validate_lem h.exists cfg valid in
      bind_fault P _ _
        (λ x bad.
          token_fault cfg cfg.bot.token_env cfg.bot.token x refl (validate-token h.exists cfg valid)
            bad)
        (λ token _.
          bind_fault P _ _ (λ x bad. url_fault cfg cfg.bot.api_base_url x refl bad)
            (λ base _.
              bind_fault P _ _ (λ x bad. client_fault cfg token base x bad)
                (λ client _.
                  bind_fault P _ _ (λ x bad. history_fault cfg x bad)
                    (λ store _.
                      bind_fault P _ _
                        (λ x bad. lists_resolve cfg cfg.access.allowed_send_targets x resolves bad)
                        (λ targets _.
                          bind_fault P _ _ (λ x bad. updater_fault cfg x valid bad)
                            (λ updater _ x bad. no_fault P _ x bad))))))
        e
