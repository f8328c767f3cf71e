-- ===== src/TgHook/Discovery/Picking.antt =====
-- Which record is picked.
use telegram_mcpvscode.Prelude.{
  String, ℕ, Bool, true, false, Option, none, some, List, [], ◌∷◌, ◌++◌, ◌≡◌, refl, ap, ◌⊎◌, inl,
  inr, All,
}
use telegram_mcpvscode.Prelude.Lists.{find_by}
use telegram_mcpvscode.LocalPipe.Discovery.{DiscoveryRecord}
use telegram_mcpvscode.TgHook.Discovery.{
  has_session, has_parent, by_session, by_parent, only_one, pick_record,
}

-- `x` is the first member of the list that passes the test.
abbrev pub IsFirst {ℓ} : {A : Type ℓ} → (A → Bool) → List A → A → Type ℓ
IsFirst {A = A} p xs x =
    (front : List A) × (back : List A) × (xs ≡ front ++ (x ∷ back))
    × All (λ y. p y ≡ false) front
    × (p x ≡ true)

abbrev pub None {ℓ} : {A : Type ℓ} → (A → Bool) → List A → Type 0
None p xs = All (λ y. p y ≡ false) xs

module _ {ℓ} {A : Type ℓ} (p : A → Bool) where
  find_by_cases :
      (xs : List A)
      → ((find_by p xs ≡ none) × None p xs) ⊎ ((x : A) × (find_by p xs ≡ some x) × IsFirst p xs x)
  unfolding find_by
  find_by_cases [] = inl (refl, tt)
  find_by_cases (x ∷ xs) = go (p x) refl (find_by_cases xs)
    where
      go :
          (b : Bool)
          → p x ≡ b
          → (((find_by p xs ≡ none) × None p xs)
              ⊎ ((y : A) × (find_by p xs ≡ some y) × IsFirst p xs y))
          → ((find_by p (x ∷ xs) ≡ none) × None p (x ∷ xs))
            ⊎ ((y : A) × (find_by p (x ∷ xs) ≡ some y) × IsFirst p (x ∷ xs) y)
      go true e r = inr (x, rw e refl, ([], xs, refl, tt, e))
      go false e (inl (missing, others)) = inl (rw e missing, (e, others))
      go false e (inr (y, found, (front, back, split, others, passes))) =
          inr (y, rw e found, (x ∷ front, back, ap (◌∷◌ x) split, (e, others), passes))

module _ (records : List DiscoveryRecord) where
  -- The session has no record.
  abbrev pub NoSession : Option String → Type 0
  NoSession none = Unit
  NoSession (some sid) = None (has_session sid) records

  -- No process of the chain is the parent of a server.
  abbrev pub NoParent : List ℕ → Type 0
  NoParent pids = All (λ pid. None (has_parent pid) records) pids

  pub data IsPick (session : Option String) (chain : List ℕ) : Option DiscoveryRecord → Type 0 where
    of_session :
        (sid : String) (r : DiscoveryRecord)
        → session ≡ some sid
        → IsFirst (has_session sid) records r
        → IsPick session chain (some r)
    of_parent :
        (front back : List ℕ) (pid : ℕ) (r : DiscoveryRecord)
        → NoSession session
        → chain ≡ front ++ (pid ∷ back)
        → NoParent front
        → IsFirst (has_parent pid) records r
        → IsPick session chain (some r)
    only_server :
        (r : DiscoveryRecord)
        → NoSession session
        → NoParent chain
        → records ≡ r ∷ []
        → IsPick session chain (some r)
    no_server :
        NoSession session
        → NoParent chain
        → ((r : DiscoveryRecord) → ¬ (records ≡ r ∷ []))
        → IsPick session chain none

  -- The record that the session's id finds, or the lack of one.
  by_session_cases :
      (session : Option String)
      → ((by_session records session ≡ none) × NoSession session)
        ⊎ ((sid : String) × (r : DiscoveryRecord) × (session ≡ some sid)
            × (by_session records session ≡ some r)
            × IsFirst (has_session sid) records r)
  unfolding by_session
  by_session_cases none = inl (refl, tt)
  by_session_cases (some sid) = elim (find_by_cases (has_session sid) records) [
    | inl h ↦ inl h
    | inr (r, found, first) ↦ inr (sid, r, refl, found, first)
  ]

  ByParent : List ℕ → Type 0
  ByParent chain =
      ((by_parent records chain ≡ none) × NoParent chain)
      ⊎ ((front : List ℕ) × (back : List ℕ) × (pid : ℕ) × (r : DiscoveryRecord) × (chain
            ≡ front ++ (pid ∷ back))
          × NoParent front
          × (by_parent records chain ≡ some r)
          × IsFirst (has_parent pid) records r)

  ByParent-cases : (chain : List ℕ) → ByParent chain
  unfolding by_parent ByParent
  ByParent-cases [] = inl (refl, tt)
  ByParent-cases (pid ∷ pids) = go (find_by_cases (has_parent pid) records) (ByParent-cases pids)
    where
      go :
          ((find_by (has_parent pid) records ≡ none) × None (has_parent pid) records)
            ⊎ ((r : DiscoveryRecord) × (find_by (has_parent pid) records ≡ some r)
                × IsFirst (has_parent pid) records r)
          → ByParent pids
          → ByParent (pid ∷ pids)
      go (inr (r, found, first)) rest = inr ([], pids, pid, r, refl, tt, rw found refl, first)
      go (inl (missing, others)) (inl (rest, parentless)) =
          inl (rw missing rest, (others, parentless))
      go (inl (missing, others)) (inr (front, back, q, r, split, parentless, found, first)) = inr (
        pid ∷ front,
        back,
        q,
        r,
        ap (◌∷◌ pid) split,
        (others, parentless),
        rw missing found,
        first,
      )

  only_one-IsPick :
      (session : Option String) (chain : List ℕ) (rs : List DiscoveryRecord)
      → records ≡ rs
      → NoSession session
      → NoParent chain
      → IsPick session chain (only_one records rs)
  only_one-IsPick session chain [] e s p = no_server s p (λ r one. absurd (cc (e, one)))
  only_one-IsPick session chain (r ∷ []) e s p = only_server r s p e
  only_one-IsPick session chain (r ∷ q ∷ rs) e s p = no_server s p (λ x one. absurd (cc (e, one)))

  -- The record that is picked is the first of the session; if there is none, the first whose parent
  -- is the nearest process of the chain that is the parent of any; if there is none either, the
  -- only record; and none is picked otherwise.
  pub pick_record-IsPick :
      (session : Option String) (chain : List ℕ)
      → IsPick session chain (pick_record records session chain)
  unfolding pick_record ByParent
  pick_record-IsPick session chain = go (by_session_cases session) (ByParent-cases chain)
    where
      go :
          ((by_session records session ≡ none) × NoSession session)
            ⊎ ((sid : String) × (r : DiscoveryRecord) × (session ≡ some sid)
                × (by_session records session ≡ some r)
                × IsFirst (has_session sid) records r)
          → ByParent chain
          → IsPick session chain (pick_record records session chain)
      go (inr (sid, r, e, found, first)) parents = rw found (of_session sid r e first)
      go (inl (missing, s)) (inr (front, back, pid, r, split, parentless, found, first)) =
          rw (missing, found) (of_parent front back pid r s split parentless first)
      go (inl (missing, s)) (inl (missing_parent, p)) =
          rw (missing, missing_parent) (only_one-IsPick session chain records refl s p)
