-- ===== src/McpServer/Resolving.antt =====
-- What a configuration that `validate` accepts guarantees for the resolution of its lists.
use telegram_mcpvscode.Prelude.{
  String, ℕ, ◌≤◌, ℤ, Bool, true, false, ◌&&◌, ◌||◌, not, Option, none, some, List, [], ◌∷◌, ◌++◌,
  ◌≡◌, refl, ◌⊎◌, arith, inl, inr, ltb, length, Bool-cases, Option-cases,
}
use telegram_mcpvscode.Prelude.Options.{is_some}
use telegram_mcpvscode.Aliases.{lookup}
use telegram_mcpvscode.McpServer.Config.{
  AliasOrId, id, name, Config, ConfigError, Checked, ok, err, ◌>>◌, reject_if, check_names,
  validate, resolve_entry, resolve_id_list, allow_list, parent_is_missing,
  poll_timeout_out_of_range, missing_parent, no_token,
}

module _ (aliases : List (String × ℤ)) where
  -- Every entry that is a name is an alias.
  check_names-append :
      (xs ys : List AliasOrId)
      → check_names aliases (xs ++ ys) ≡ ok tt
      → (check_names aliases xs ≡ ok tt) × (check_names aliases ys ≡ ok tt)
  unfolding check_names
  check_names-append [] ys h = (refl, h)
  check_names-append (id n ∷ xs) ys h = check_names-append xs ys h
  check_names-append (name n ∷ xs) ys h = elim (Bool-cases (is_some (lookup n aliases))) [
    | inl known ↦ rw known (check_names-append xs ys (rw known at h))
    | inr unknown ↦ absurd (let e = rw unknown at h in cc e)
  ]

  resolve_id_list_lem :
      (xs : List AliasOrId)
      → check_names aliases xs ≡ ok tt
      → (chats : List ℤ) × (resolve_id_list aliases xs ≡ ok chats) × (length chats ≡ length xs)
  unfolding check_names resolve_id_list resolve_entry
  resolve_id_list_lem [] h = ([], refl, refl)
  resolve_id_list_lem (id n ∷ xs) h =
      let (chats, e, l) = resolve_id_list_lem xs h in (n ∷ chats, rw e refl, ground arith)
  resolve_id_list_lem (name n ∷ xs) h = elim (Option-cases (lookup n aliases)) [
    | inl unknown ↦ absurd (let e = rw unknown at h in cc e)
    | inr (chat_id, known) ↦
        let (chats, e, l) = resolve_id_list_lem xs (rw known at h) in
        (chat_id ∷ chats, rw (known, e) refl, ground arith)
  ]

  allow_list_lem :
      (xs : List AliasOrId)
      → check_names aliases xs ≡ ok tt
      → (chats : Option (List ℤ)) × (allow_list aliases xs ≡ ok chats)
  unfolding allow_list
  allow_list_lem [] h = (none, refl)
  allow_list_lem (e ∷ xs) h =
      let (chats, r, l) = resolve_id_list_lem (e ∷ xs) h in (some chats, rw r refl)

reject-then :
    {B : Type 0} (b : Bool) (e : ConfigError) (k : Checked B) (a : B)
    → (do reject_if b e; k) ≡ ok a
    → (b ≡ false) × (k ≡ ok a)
reject-then true e k a h = cc
reject-then false e k a h = (refl, h)

check-then : (m k : Checked (Unit {0})) → (do m; k) ≡ ok tt → m ≡ ok tt
check-then (ok tt) k h = refl
check-then (err e) k h = cc

at_least : (n : ℕ) → (ltb n 1 || ltb 50 n) ≡ false → 1 ≤ n
at_least n h = ground arith

at_most : (n : ℕ) → (ltb n 1 || ltb 50 n) ≡ false → n ≤ 50
at_most n h = ground arith

-- If `validate` accepts a configuration, its poll timeout is from 1 to 50 seconds, and both lists
-- of its `[access]` section resolve.
pub validate_lem :
    (exists : String → Bool) (cfg : Config)
    → validate exists cfg ≡ ok tt
    → (1 ≤ cfg.updater.poll_timeout_secs)
      × (cfg.updater.poll_timeout_secs ≤ 50)
      × ((chats : Option (List ℤ)) × (allow_list cfg.aliases cfg.access.allowed_chats ≡ ok chats))
      × ((chats : Option (List ℤ)) × (allow_list cfg.aliases cfg.access.allowed_send_targets
            ≡ ok chats))
unfolding validate
validate_lem exists cfg h =
    let secs = cfg.updater.poll_timeout_secs in
    let (in_range, h1) = reject-then (ltb secs 1 || ltb 50 secs) poll_timeout_out_of_range _ tt h in
    let (parent, h2) =
      reject-then (parent_is_missing exists cfg.storage_parent) missing_parent _ tt h1 in
    let known =
      check-then _
        (reject_if (not (is_some cfg.bot.token) && not (is_some cfg.bot.token_env)) no_token) h2 in
    let (a, b) =
      check_names-append cfg.aliases cfg.access.allowed_chats cfg.access.allowed_send_targets
        known in
    (
      at_least cfg.updater.poll_timeout_secs in_range,
      at_most cfg.updater.poll_timeout_secs in_range,
      allow_list_lem cfg.aliases cfg.access.allowed_chats a,
      allow_list_lem cfg.aliases cfg.access.allowed_send_targets b,
    )

-- A configuration that is accepted names a source of the token.
pub validate-token :
    (exists : String → Bool) (cfg : Config)
    → validate exists cfg ≡ ok tt
    → (is_some cfg.bot.token ≡ true) ⊎ (is_some cfg.bot.token_env ≡ true)
unfolding validate
validate-token exists cfg h =
    let secs = cfg.updater.poll_timeout_secs in
    let (_, h1) = reject-then (ltb secs 1 || ltb 50 secs) poll_timeout_out_of_range _ tt h in
    let (_, h2) =
      reject-then (parent_is_missing exists cfg.storage_parent) missing_parent _ tt h1 in
    some_source (is_some cfg.bot.token) (is_some cfg.bot.token_env) (
      after-ok
        (check_names cfg.aliases (cfg.access.allowed_chats ++ cfg.access.allowed_send_targets)) _
        h2)
  where
    after-ok : (m k : Checked (Unit {0})) → (do m; k) ≡ ok tt → k ≡ ok tt
    after-ok (ok tt) k e = e
    after-ok (err x) k e = cc

    some_source :
        (a b : Bool) → reject_if (not a && not b) no_token ≡ ok tt → (a ≡ true) ⊎ (b ≡ true)
    some_source true b e = inl refl
    some_source false true e = inr refl
    some_source false false e = cc
