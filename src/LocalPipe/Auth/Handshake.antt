-- ===== src/LocalPipe/Auth/Handshake.antt =====
-- Which streams pass the handshake, and what is left of them.
use mathlib.Core.List.{append-nil, append_assoc}
use telegram_mcpvscode.Prelude.{
  ℕ, ◌+◌, ◌<◌, ◌≤◌, true, false, some, [], ◌∷◌, ◌++◌, ◌≡◌, ◌⊎◌, inl, inr, refl, sym, ap, subst, ◌∙◌,
  arith, leb, ◌==◌, length, All, Bool-cases, Option-cases,
}
use telegram_mcpvscode.Prelude.Lists.{length-append, All-of-append, All-mono}
use telegram_mcpvscode.LocalPipe.Auth.{
  Outcome, ok, err, Ending, closed, broken, Bytes, max_auth_line_bytes, read_line, strip_cr,
  is_utf8, strip_prefix, constant_time_eq, auth_prefix, check_token, check_line, consume_auth_line,
}
use telegram_mcpvscode.LocalPipe.Auth.Tables.{IsByte, constant_time_eq_iff}

-- A line that is read stands in the stream, before a newline and the rest.
read_line_sound :
    (line bs : Bytes) (ending : Ending) {l rest : Bytes}
    → read_line line bs ending ≡ ok (l, rest)
    → line ++ bs ≡ l ++ (10 ∷ rest)
unfolding read_line
read_line_sound line [] closed h = cc
read_line_sound line [] broken h = cc
read_line_sound line (b ∷ bs) ending {l} {rest} h = elim (Bool-cases (b == 10)) [
  | inl e ↦
      let newline : b ≡ 10 = ground arith in
      let same_line : line ≡ l = ground arith in
      let same_rest : bs ≡ rest = ground arith in cc (newline, same_line, same_rest)
  | inr e ↦ elim (Bool-cases (leb max_auth_line_bytes (length line))) [
    | inl long ↦ absurd (ground arith)
    | inr short ↦
        sym (append_assoc line (b ∷ []) bs)
        ∙ read_line_sound (line ++ (b ∷ [])) bs ending (ground arith)
  ]
]

-- A stream with a newline within the limit is read up to it.
read_line_complete :
    (line l rest : Bytes) (ending : Ending)
    → All (λ b. (b == 10) ≡ false) l
    → length line + length l ≤ max_auth_line_bytes
    → read_line line (l ++ (10 ∷ rest)) ending ≡ ok (line ++ l, rest)
unfolding read_line
read_line_complete line [] rest ending h fits = rw append-nil
read_line_complete line (b ∷ l) rest ending (hb, h) fits =
    let short : leb max_auth_line_bytes (length line) ≡ false = ground arith in
    rw (hb, short)
      (read_line_complete (line ++ (b ∷ [])) l rest ending h
          (omega (arith, length-append line (b ∷ [])))
        ∙ rw append_assoc)

strip_cr_sound : (l : Bytes) → (l ≡ strip_cr l) ⊎ (l ≡ strip_cr l ++ (13 ∷ []))
unfolding strip_cr
strip_cr_sound [] = inl refl
strip_cr_sound (b ∷ []) = ground arith
strip_cr_sound (b ∷ c ∷ bs) = elim (strip_cr_sound (c ∷ bs)) [
  | inl e ↦ inl (ap (◌∷◌ b) e)
  | inr e ↦ inr (ap (◌∷◌ b) e)
]

strip_prefix_sound : (p bs : Bytes) {rest : Bytes} → strip_prefix p bs ≡ some rest → bs ≡ p ++ rest
unfolding strip_prefix
strip_prefix_sound [] bs h = ground arith
strip_prefix_sound (a ∷ p) [] h = cc
strip_prefix_sound (a ∷ p) (b ∷ bs) h = elim (Bool-cases (a == b)) [
  | inl e ↦
      let same : a ≡ b = ground arith in
      let tails = strip_prefix_sound p bs (rw e at h) in cc (same, tails)
  | inr e ↦ absurd (ground arith)
]

strip_prefix_complete : (p rest : Bytes) → strip_prefix p (p ++ rest) ≡ some rest
unfolding strip_prefix
strip_prefix_complete [] rest = refl
strip_prefix_complete (a ∷ p) rest = ground (arith, strip_prefix_complete p rest)

-- The stream that a client must send: the token, and at most a carriage return before the newline.
abbrev pub Opens : Bytes → Bytes → Bytes → Type 0
Opens stream expected rest =
    (stream ≡ auth_prefix ++ (expected ++ (10 ∷ rest)))
    ⊎ (stream ≡ auth_prefix ++ (expected ++ (13 ∷ 10 ∷ rest)))

line-Opens :
    (stream expected rest l : Bytes)
    → stream ≡ l ++ (10 ∷ rest)
    → strip_cr l ≡ auth_prefix ++ expected
    → Opens stream expected rest
line-Opens stream expected rest l e s = elim (strip_cr_sound l) [
  | inl plain ↦
      inl
        (e ∙ ap (λ k. k ++ (10 ∷ rest)) (plain ∙ s) ∙ append_assoc auth_prefix expected (10 ∷ rest))
  | inr returned ↦ inr (
      e
      ∙ ap (λ k. k ++ (10 ∷ rest)) (returned ∙ ap (λ k. k ++ (13 ∷ [])) s)
      ∙ append_assoc (auth_prefix ++ expected) (13 ∷ []) (10 ∷ rest)
      ∙ append_assoc auth_prefix expected (13 ∷ 10 ∷ rest))
]

check_line_sound :
    (expected rest : Bytes) (r : Outcome (Bytes × Bytes))
    → All IsByte expected
    → ((l s : Bytes) → r ≡ ok (l, s) → All IsByte (strip_cr l))
    → check_line auth_prefix expected r ≡ ok rest
    → (l : Bytes) × (r ≡ ok (l, rest)) × (strip_cr l ≡ auth_prefix ++ expected)
unfolding check_line check_token
check_line_sound expected rest (err e) he hb h = cc
check_line_sound expected rest (ok (l, s)) he hb h =
    elim (Option-cases (strip_prefix auth_prefix (strip_cr l))) [
      | inl no_prefix ↦ absurd (ground (arith, no_prefix))
      | inr (token, found) ↦
          let shape = strip_prefix_sound auth_prefix (strip_cr l) found in
          let bytes =
            All-of-append IsByte auth_prefix token (subst (All IsByte) shape (hb l s refl)) in
          let accepted : constant_time_eq token expected ≡ true = ground (arith, found) in
          let same = (constant_time_eq_iff token expected bytes.1 he).0 accepted in
          let tails : s ≡ rest = ground (arith, found) in
          (l, ap (λ t. ok (l, t)) tails, shape ∙ ap (λ t. auth_prefix ++ t) same)
    ]

All-strip_cr : (l : Bytes) → All IsByte l → All IsByte (strip_cr l)
unfolding strip_cr
All-strip_cr [] h = tt
All-strip_cr (b ∷ []) h = elim (Bool-cases (b == 13)) [ inl e ↦ rw e tt | inr e ↦ rw e h ]
All-strip_cr (b ∷ c ∷ bs) (hb, h) = (hb, All-strip_cr (c ∷ bs) h)

-- For a token and a stream of bytes, a connection is handed on only if the stream begins with `AUTH
-- `, the token and a newline, with at most a carriage return before it; what is handed on is all
-- that follows the newline.
pub consume_auth_line_sound :
    (expected stream : Bytes) (ending : Ending) {rest : Bytes}
    → All IsByte expected
    → All IsByte stream
    → consume_auth_line expected stream ending ≡ ok rest
    → Opens stream expected rest
unfolding consume_auth_line
consume_auth_line_sound expected stream ending {rest} he hs h =
    let bytes = λ (l s : Bytes) (e : read_line [] stream ending ≡ ok (l, s)).
      All-strip_cr l
        (All-of-append IsByte l (10 ∷ s)
          (subst (All IsByte) (read_line_sound [] stream ending e) hs)).0 in
    let (l, read, shape) = check_line_sound expected rest (read_line [] stream ending) he bytes h in
    line-Opens stream expected rest l (read_line_sound [] stream ending read) shape

-- completeness

abbrev pub IsGraphic : ℕ → Type 0
IsGraphic b = (33 ≤ b) × (b < 127)

strip_cr_graphic :
    (b : ℕ) (bs : Bytes) → All IsGraphic bs → (b == 13) ≡ false → strip_cr (b ∷ bs) ≡ b ∷ bs
unfolding strip_cr
strip_cr_graphic b [] h e = rw e
strip_cr_graphic b (c ∷ bs) (hc, h) e = ap (◌∷◌ b) (strip_cr_graphic c bs h (ground arith))

utf8_graphic : (bs : Bytes) → All IsGraphic bs → is_utf8 bs ≡ true
unfolding is_utf8
utf8_graphic [] h = refl
utf8_graphic (b ∷ bs) (hb, h) = ground (arith, utf8_graphic bs h)

strip_cr_line :
    (token : Bytes) → All IsGraphic token → strip_cr (auth_prefix ++ token) ≡ auth_prefix ++ token
unfolding strip_cr
strip_cr_line token h = ap (λ l. 65 ∷ 85 ∷ 84 ∷ 72 ∷ l) (strip_cr_graphic 32 token h refl)

utf8_line : (token : Bytes) → All IsGraphic token → is_utf8 (auth_prefix ++ token) ≡ true
unfolding is_utf8
utf8_line token h = utf8_graphic token h

check_line_passes :
    (l text token rest : Bytes)
    → strip_cr l ≡ text
    → is_utf8 text ≡ true
    → strip_prefix auth_prefix text ≡ some token
    → constant_time_eq token token ≡ true
    → check_line auth_prefix token (ok (l, rest)) ≡ ok rest
unfolding check_line check_token
check_line_passes l text token rest stripped valid found same = rw (stripped, valid, found, same)

check_line_accepts :
    (token rest : Bytes)
    → All IsGraphic token
    → check_line auth_prefix token (ok (auth_prefix ++ token, rest)) ≡ ok rest
check_line_accepts token rest h =
    let bytes = All-mono IsGraphic IsByte token (λ b hb. omega arith) h in
    let same = (constant_time_eq_iff token token bytes bytes).1 refl in
    check_line_passes (auth_prefix ++ token) (auth_prefix ++ token) token rest
      (strip_cr_line token h) (utf8_line token h) (strip_prefix_complete auth_prefix token) same

-- A client that sends `AUTH `, the token, of printable ASCII characters and short enough for the
-- limit of the line, and a newline passes, and the server reads nothing past the newline.
pub consume_auth_line_accepts :
    (token rest : Bytes) (ending : Ending)
    → All IsGraphic token
    → length token + 5 ≤ max_auth_line_bytes
    → consume_auth_line token (auth_prefix ++ (token ++ (10 ∷ rest))) ending ≡ ok rest
unfolding consume_auth_line
consume_auth_line_accepts token rest ending h fits =
    let plain = All-mono IsGraphic (λ b. (b == 10) ≡ false) token (λ b hb. ground arith) h in
    let read =
      read_line_complete [] (auth_prefix ++ token) rest ending
        (refl, (refl, (refl, (refl, (refl, plain))))) (omega arith) in
    rw read (check_line_accepts token rest h)
