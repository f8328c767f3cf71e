-- ===== src/History/Conn/Effect.antt =====
-- What an action does when it succeeds, whatever faults there are, and that it succeeds when there
-- are none.
use telegram_mcpvscode.Prelude.{
  Bool, true, false, List, [], ◌∷◌, ◌≡◌, refl, ◌⊎◌, inl, inr, arith, ◌∙◌, sym, ap, subst,
}
use telegram_mcpvscode.History.Types.{HistoryError}
use telegram_mcpvscode.History.Conn.{
  Db, Conn, Result, ok, err, Action, proceed, pure, statement, execute, ◌>>=◌, ◌>>◌, rollback,
  transaction,
}

-- If `m` returns, it returns what `f` gives on the tables, and leaves the tables that `f` gives.
pub record Does {A : Type 0} (m : Action A) (f : Db → A × Db) : Type 0 where
  pub at : (c : Conn) (a : A) → (m c).0 ≡ ok a → (a ≡ (f c.db).0) × ((m c).1.db ≡ (f c.db).1)

module _ {A : Type 0} where
  pub Does-pure : (a : A) → Does (pure a) (λ db. (a, db))
  Does-pure a = record { at = λ c b h. (ground arith, refl) }

  pub Does-statement : (f : Db → A × Db) → Does (statement f) f
  unfolding statement
  Does-statement f = record { at = λ c a h. go c.faults c.db a h }
    where
      go :
          (faults : List Bool) (db : Db) (a : A)
          → (statement f (record { db = db; faults = faults })).0 ≡ ok a
          → (a ≡ (f db).0) × ((statement f (record { db = db; faults = faults })).1.db ≡ (f db).1)
      go [] db a h = (ground arith, refl)
      go (true ∷ later) db a h = cc
      go (false ∷ later) db a h = (ground arith, refl)

module _ {A B : Type 0} where
  Does-proceed :
      (f : Db → A × Db) (k : A → Action B) (g : A → Db → B × Db) (db : Db) (r : Result A) (d : Conn)
      → ((a : A) → r ≡ ok a → (a ≡ (f db).0) × (d.db ≡ (f db).1))
      → ((a : A) → Does (k a) (g a))
      → (b : B) → (proceed k r d).0 ≡ ok b
      → (b ≡ (g (f db).0 (f db).1).0) × ((proceed k r d).1.db ≡ (g (f db).0 (f db).1).1)
  Does-proceed f k g db (ok a) d first then b h =
      let (ea, ed) = first a refl in
      let (eb, ec) = (then a).at d b h in (cc (ea, ed, eb), cc (ea, ed, ec))
  Does-proceed f k g db (err e) d first then b h = cc

  pub Does-bind :
      {m : Action A} {f : Db → A × Db} (k : A → Action B) (g : A → Db → B × Db)
      → Does m f
      → ((a : A) → Does (k a) (g a))
      → Does (m >>= k) (λ db. g (f db).0 (f db).1)
  Does-bind {m} {f} k g first then = record {
    at = λ c b h. Does-proceed f k g c.db (m c).0 (m c).1 (first.at c) then b h;
  }

module _ {A : Type 0} where
  rollback_failed :
      (old : Db) (r : Result A × Conn) (e : HistoryError)
      → (rollback old r).0 ≡ err e
      → (rollback old r).1.db ≡ old
  unfolding rollback
  rollback_failed old (ok a, c) e h = cc
  rollback_failed old (err x, c) e h = refl

  rollback_ok :
      (old : Db) (r : Result A × Conn) (a : A)
      → (rollback old r).0 ≡ ok a
      → (r.0 ≡ ok a) × ((rollback old r).1.db ≡ r.1.db)
  unfolding rollback
  rollback_ok old (ok x, c) a h = (h, refl)
  rollback_ok old (err x, c) a h = cc

  -- A transaction that returns has run its body, and one that fails has changed no table.
  pub Does-transaction :
      {body : Action A} (f : Db → A × Db) → Does body f → Does (transaction body) f
  unfolding transaction
  Does-transaction {body} f d = record {
    at = λ c a h.
        let (e, same) = rollback_ok c.db _ a h in let (ea, ed) = inner.at c a e in (ea, same ∙ ed);
  }
    where
      begin : Does (execute (λ db. db)) (λ db. (tt, db))
      begin = Does-statement (λ db. (tt, db))

      inner : Does (do execute (λ db. db); a ← body; execute (λ db. db); pure a) f
      inner = Does-bind _ _ begin (λ _.
          Does-bind _ (λ a db. (a, db)) d
            (λ a. Does-bind _ (λ _ db. (a, db)) begin (λ _. Does-pure a)))

  pub transaction_failed :
      (body : Action A) (c : Conn) (e : HistoryError)
      → (transaction body c).0 ≡ err e
      → (transaction body c).1.db ≡ c.db
  unfolding transaction
  transaction_failed body c e h = rollback_failed c.db _ e h

  Result-cases : (r : Result A) → ((a : A) × (r ≡ ok a)) ⊎ ((e : HistoryError) × (r ≡ err e))
  Result-cases (ok a) = inl (a, refl)
  Result-cases (err e) = inr (e, refl)

  -- All or nothing, whichever statement fails.
  pub transaction_atomic :
      {body : Action A} (f : Db → A × Db)
      → Does body f
      → (c : Conn)
      → (((transaction body c).0 ≡ ok (f c.db).0) × ((transaction body c).1.db ≡ (f c.db).1))
        ⊎ ((e : HistoryError) × ((transaction body c).0 ≡ err e)
            × ((transaction body c).1.db ≡ c.db))
  transaction_atomic {body} f d c = elim (Result-cases (transaction body c).0) [
    | inl (a, h) ↦ let (ea, ed) = (Does-transaction f d).at c a h in inl (h ∙ ap ok ea, ed)
    | inr (e, h) ↦ inr (e, h, transaction_failed body c e h)
  ]

-- If `m` returns from tables with `P`, it leaves tables with `P`.
pub record Preserves {A : Type 0} (P : Db → Type 0) (m : Action A) : Type 0 where
  pub at : (c : Conn) (a : A) → P c.db → (m c).0 ≡ ok a → P (m c).1.db

module _ {A : Type 0} (P : Db → Type 0) where
  pub Preserves-Does :
      {m : Action A} (f : Db → A × Db) → Does m f → ((db : Db) → P db → P (f db).1) → Preserves P m
  Preserves-Does f d keeps = record {
    at = λ c a p h. subst P (sym ((d.at c a h).1)) (keeps c.db p);
  }

module _ {A B : Type 0} (P : Db → Type 0) where
  Preserves-proceed :
      (k : A → Action B) (r : Result A) (d : Conn) (b : B)
      → ((a : A) → r ≡ ok a → P d.db)
      → ((a : A) → Preserves P (k a))
      → (proceed k r d).0 ≡ ok b
      → P (proceed k r d).1.db
  Preserves-proceed k (ok a) d b p keeps h = (keeps a).at d b (p a refl) h
  Preserves-proceed k (err e) d b p keeps h = cc

  pub Preserves-bind :
      {m : Action A} (k : A → Action B)
      → Preserves P m
      → ((a : A) → Preserves P (k a))
      → Preserves P (m >>= k)
  Preserves-bind {m} k first keeps = record {
    at = λ c b p h. Preserves-proceed k (m c).0 (m c).1 b (λ a e. first.at c a p e) keeps h;
  }

begin-Preserves : (P : Db → Type 0) → Preserves P (execute (λ db. db))
begin-Preserves P = Preserves-Does P _ (Does-statement (λ db. (tt, db))) (λ db p. p)

module _ {A : Type 0} (P : Db → Type 0) where
  commit-Preserves : (a : A) → Preserves P (do execute (λ db. db); pure a)
  commit-Preserves a =
      Preserves-bind P _ (begin-Preserves P) (λ _. Preserves-Does P _ (Does-pure a) (λ db p. p))

  -- A transaction keeps what its body keeps on success, also when a statement fails.
  pub transaction-Preserves :
      {body : Action A} → Preserves P body → (c : Conn) → P c.db → P (transaction body c).1.db
  unfolding transaction
  transaction-Preserves {body} k c p = elim (Result-cases (transaction body c).0) [
    | inl (a, h) ↦ let (e, same) = rollback_ok c.db _ a h in subst P (sym same) (inner.at c a p e)
    | inr (e, h) ↦ subst P (sym (transaction_failed body c e h)) p
  ]
    where
      inner : Preserves P (do execute (λ db. db); a ← body; execute (λ db. db); pure a)
      inner = Preserves-bind P _ (begin-Preserves P) (λ _. Preserves-bind P _ k commit-Preserves)
