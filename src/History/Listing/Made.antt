-- ===== src/History/Listing/Made.antt =====
-- What `list_chats` makes of the rows of the tables.
use telegram_mcpvscode.Prelude.{ℤ, pos, Option, some, List, [], ◌∷◌, map, ◌≡◌, refl, ap, All}
use telegram_mcpvscode.Prelude.Order.{sort}
use telegram_mcpvscode.Prelude.Sorting.{All-sort}
use telegram_mcpvscode.History.Types.{ChatInfo, ChatSummary, ChatKind, kind_from_sql}
use telegram_mcpvscode.History.Conn.{ChatRow, Db, Conn, ok, statement}
use telegram_mcpvscode.History.Sql.{max_message_id, count_unread}
use telegram_mcpvscode.History.Store.{chat_of_row}
use telegram_mcpvscode.History.Store.Reading.{no_faults}
use telegram_mcpvscode.History.Listing.{
  seen_later, select_chats, Baselines, collect_baselines, baseline_of, infos_of_rows, summaries,
  list_chats,
}

-- The baseline of a chat in the tables.
abbrev pub baseline_in : Db → ℤ → ℤ
baseline_in db j = baseline_of j (collect_baselines db.kv [])

abbrev pub HasKnownKind : ChatRow → Type 0
HasKnownKind r = (k : ChatKind) × (kind_from_sql r.kind ≡ some k)

-- The fields of a chat are those of its row.
abbrev pub IsInfo : ChatRow → ChatInfo → Type 0
IsInfo r info =
    (info.chat_id ≡ r.chat_id)
    × (kind_from_sql r.kind ≡ some info.kind)
    × (info.title ≡ r.title)
    × (info.username ≡ r.username)
    × (info.first_seen ≡ r.first_seen)
    × (info.last_seen ≡ r.last_seen)

-- The members of two lists, one by one.
abbrev pub Pairwise : {A B : Type 0} → (A → B → Type 0) → List A → List B → Type 0
Pairwise R [] [] = Unit
Pairwise R (x ∷ xs) [] = ⊥
Pairwise R [] (y ∷ ys) = ⊥
Pairwise R (x ∷ xs) (y ∷ ys) = R x y × Pairwise R xs ys

pub Pairwise-mono :
    {A B : Type 0} (R S : A → B → Type 0) (xs : List A) (ys : List B)
    → ((x : A) (y : B) → R x y → S x y)
    → Pairwise R xs ys
    → Pairwise S xs ys
Pairwise-mono R S [] [] f h = tt
Pairwise-mono R S (x ∷ xs) [] f h = absurd h
Pairwise-mono R S [] (y ∷ ys) f h = absurd h
Pairwise-mono R S (x ∷ xs) (y ∷ ys) f (h, rest) = (f x y h, Pairwise-mono R S xs ys f rest)

-- A row of the query, and what is made of it.
abbrev Reads : (ℤ → Option ℤ) → ChatRow → ChatInfo × Option ℤ → Type 0
Reads last r (info, n) = IsInfo r info × (n ≡ last r.chat_id)

infos_lem :
    (last : ℤ → Option ℤ) (rows : List ChatRow) (c : Conn)
    → All HasKnownKind rows
    → (infos : List (ChatInfo × Option ℤ)) × (infos_of_rows (map (λ r. (r, last r.chat_id)) rows) c
        ≡ (ok infos, c))
      × Pairwise (Reads last) rows infos
unfolding infos_of_rows chat_of_row
infos_lem last [] c h = ([], refl, tt)
infos_lem last (r ∷ rows) c ((k, known), h) =
    let (infos, e, same) = infos_lem last rows c h in
    let info : ChatInfo = record {
      chat_id = r.chat_id;
      kind = k;
      title = r.title;
      username = r.username;
      first_seen = r.first_seen;
      last_seen = r.last_seen;
    } in
    (
      (info, last r.chat_id) ∷ infos,
      rw (known, e) refl,
      (((refl, known, refl, refl, refl, refl), refl), same),
    )

-- The summary that the code makes of a row, by the baseline of each chat.
abbrev pub Made : (ℤ → ℤ) → Db → (ℤ → Option ℤ) → ChatRow → ChatSummary → Type 0
Made baseline db last r s =
    IsInfo r s.info
    × (s.unread_count ≡ pos (count_unread r.chat_id (baseline r.chat_id) db))
    × (s.last_message_id ≡ last r.chat_id)

summaries_lem :
    (bs : Baselines) (db : Db) (last : ℤ → Option ℤ) (rows : List ChatRow)
    (infos : List (ChatInfo × Option ℤ))
    → Pairwise (Reads last) rows infos
    → (list : List ChatSummary) × (summaries bs infos (no_faults db) ≡ (ok list, no_faults db))
      × Pairwise (Made (λ j. baseline_of j bs) db last) rows list
unfolding summaries statement
summaries_lem bs db last [] [] h = ([], refl, tt)
summaries_lem bs db last (r ∷ rows) [] h = absurd h
summaries_lem bs db last [] (i ∷ infos) h = absurd h
summaries_lem bs db last (r ∷ rows) ((info, n) ∷ infos) ((h, newest), rest) =
    let (list, e, same) = summaries_lem bs db last rows infos rest in
    let first : ChatSummary = record {
      info = info;
      unread_count = pos (count_unread info.chat_id (baseline_of info.chat_id bs) db);
      last_message_id = n;
    } in
    let counted = ap (λ j. pos (count_unread j (baseline_of j bs) db)) h.0 in
    (first ∷ list, rw e refl, ((h, counted, newest), same))

pub list_chats_lem :
    (db : Db)
    → All HasKnownKind db.chats
    → (list : List ChatSummary) × ((list_chats (no_faults db)).0 ≡ ok list)
      × Pairwise
          (Made (baseline_in db) db (λ j. max_message_id j db.messages))
          (sort seen_later db.chats)
          list
unfolding list_chats select_chats statement
list_chats_lem db known =
    let last : ℤ → Option ℤ = λ j. max_message_id j db.messages in
    let rows = sort seen_later db.chats in
    let (infos, e, same) =
      infos_lem last rows (no_faults db) (All-sort seen_later HasKnownKind db.chats known) in
    let (list, found, made) = summaries_lem (collect_baselines db.kv []) db last rows infos same in
    (list, rw (e, found) refl, made)
