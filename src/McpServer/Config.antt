-- ===== src/McpServer/Config.antt =====
-- crates/mcp-server/src/config.rs: the configuration and its validation. The environment and the
-- existence of a directory are arguments; the TOML parser is not modelled.
use telegram_mcpvscode.Prelude.{
  String, ℕ, ℤ, Bool, true, false, not, ◌&&◌, ◌||◌, Option, none, some, List, [], ◌∷◌, ◌++◌, ltb,
  str_eq, if◌then◌else◌,
}
use telegram_mcpvscode.Prelude.Options.{is_some}
use telegram_mcpvscode.Aliases.{lookup}

pub record BotConfig : Type 0 where
  pub token : Option String
  pub token_env : Option String
  pub api_base_url : Option String

pub record UpdaterConfig : Type 0 where
  pub enabled : Bool
  pub poll_timeout_secs : ℕ
  pub allowed_update_kinds : List String

pub record RetentionConfig : Type 0 where
  pub max_age_days : Option ℕ
  pub max_messages_per_chat : Option ℤ

pub data AliasOrId : Type 0 where
  id : ℤ → AliasOrId
  name : String → AliasOrId

pub record AccessConfig : Type 0 where
  pub allowed_chats : List AliasOrId
  pub allowed_send_targets : List AliasOrId
  pub file_root : Option String

-- `storage_parent` is the parent of `storage.path`, if that has one.
pub record Config : Type 0 where
  pub bot : BotConfig
  pub storage_path : String
  pub storage_parent : Option String
  pub updater : UpdaterConfig
  pub retention : RetentionConfig
  pub aliases : List (String × ℤ)
  pub access : AccessConfig

abbrev pub default_updater : UpdaterConfig
default_updater = record {
  enabled = true;
  poll_timeout_secs = 30;
  allowed_update_kinds = "message" ∷ "edited_message" ∷ "channel_post" ∷ "edited_channel_post" ∷ [];
}

pub data ConfigError : Type 0 where
  poll_timeout_out_of_range missing_parent no_token : ConfigError
  unknown_alias : String → ConfigError
  env_not_set : String → ConfigError

pub data Checked (A : Type 0) : Type 0 where
  ok : A → Checked A
  err : ConfigError → Checked A

infixl 5 ◌>>=◌
abbrev pub ◌>>=◌ : {A B : Type 0} → Checked A → (A → Checked B) → Checked B
ok a >>= f = f a
err e >>= f = err e

infixl 5 ◌>>◌
abbrev pub ◌>>◌ : {B : Type 0} → Checked (Unit {0}) → Checked B → Checked B
m >> k = m >>= λ _. k

abbrev pub reject_if : Bool → ConfigError → Checked (Unit {0})
reject_if b e = if b then err e else ok tt

unfoldable pub check_names : List (String × ℤ) → List AliasOrId → Checked (Unit {0})
unfolding lookup
check_names aliases [] = ok tt
check_names aliases (id n ∷ rest) = check_names aliases rest
check_names aliases (name n ∷ rest) =
    let more = check_names aliases rest in
    if is_some (lookup n aliases) then more else err (unknown_alias n)

module _ (exists : String → Bool) where
  abbrev pub parent_is_missing : Option String → Bool
  parent_is_missing none = false
  parent_is_missing (some parent) = if str_eq parent "" then false else not (exists parent)

  unfoldable pub validate : Config → Checked (Unit {0})
  unfolding check_names
  validate cfg = do
    reject_if (ltb cfg.updater.poll_timeout_secs 1 || ltb 50 cfg.updater.poll_timeout_secs)
        poll_timeout_out_of_range
    reject_if (parent_is_missing cfg.storage_parent) missing_parent
    check_names cfg.aliases (cfg.access.allowed_chats ++ cfg.access.allowed_send_targets)
    reject_if (not (is_some cfg.bot.token) && not (is_some cfg.bot.token_env)) no_token

-- `resolve_id_list`
abbrev alias_or_error : String → Option ℤ → Checked ℤ
alias_or_error n none = err (unknown_alias n)
alias_or_error n (some chat_id) = ok chat_id

unfoldable pub resolve_entry : List (String × ℤ) → AliasOrId → Checked ℤ
unfolding lookup
resolve_entry aliases (id chat_id) = ok chat_id
resolve_entry aliases (name n) = alias_or_error n (lookup n aliases)

unfoldable pub resolve_id_list : List (String × ℤ) → List AliasOrId → Checked (List ℤ)
unfolding resolve_entry
resolve_id_list aliases [] = ok []
resolve_id_list aliases (e ∷ rest) = do
  chat_id ← resolve_entry aliases e
  more ← resolve_id_list aliases rest
  ok (chat_id ∷ more)

-- The list that `main` hands to the tools and to the updater: an empty one means no limit.
unfoldable pub allow_list : List (String × ℤ) → List AliasOrId → Checked (Option (List ℤ))
unfolding resolve_id_list
allow_list aliases [] = ok none
allow_list aliases (e ∷ rest) = do chats ← resolve_id_list aliases (e ∷ rest); ok (some chats)

abbrev pub env_or_error : String → Option String → Checked String
env_or_error key none = err (env_not_set key)
env_or_error key (some value) = ok value

abbrev pub inline_or_error : Option String → Checked String
inline_or_error none = err no_token
inline_or_error (some t) = ok t

abbrev pub token_from : (String → Option String) → Option String → Option String → Checked String
token_from env (some key) inline = env_or_error key (env key)
token_from env none inline = inline_or_error inline

-- `resolved_token`: the environment comes first.
unfoldable pub resolved_token : (String → Option String) → Config → Checked String
resolved_token env cfg = token_from env cfg.bot.token_env cfg.bot.token
