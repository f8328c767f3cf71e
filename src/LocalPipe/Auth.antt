-- ===== src/LocalPipe/Auth.antt =====
-- crates/local-pipe/src/auth.rs: the line `AUTH <token>` that opens a connection. Text is bytes.
pub mod Tables
pub mod Handshake
use Prim.Native.Nat.{bit_or, bit_xor}
use telegram_mcpvscode.Prelude.{
  ℕ, zero, suc, ◌-◌, Bool, true, false, ◌&&◌, ◌||◌, Option, none, some, List, [], ◌∷◌, ◌++◌, ltb,
  leb, ◌==◌, if◌then◌else◌, length,
}

pub data AuthError : Type 0 where
  io eof malformed bad_token : AuthError
  too_long : ℕ → AuthError

pub data Outcome {ℓ} (A : Type ℓ) : Type ℓ where
  ok : A → Outcome A
  err : AuthError → Outcome A

-- What a read gives past the bytes that the client sent: the end of the stream, or an error.
pub data Ending : Type 0 where
  closed broken : Ending

abbrev pub Bytes : Type 0
Bytes = List ℕ

abbrev pub max_auth_line_bytes : ℕ
max_auth_line_bytes = 1024

unfoldable pub read_line : Bytes → Bytes → Ending → Outcome (Bytes × Bytes)
read_line line [] closed = err eof
read_line line [] broken = err io
read_line line (b ∷ bs) ending =
    let more = read_line (line ++ (b ∷ [])) bs ending in
    if b == 10
    then ok (line, bs)
    else if leb max_auth_line_bytes (length line)
    then err (too_long max_auth_line_bytes)
    else more

-- A carriage return at the end goes.
unfoldable pub strip_cr : Bytes → Bytes
strip_cr [] = []
strip_cr (b ∷ []) = if b == 13 then [] else b ∷ []
strip_cr (b ∷ c ∷ bs) = b ∷ strip_cr (c ∷ bs)

-- What may follow in a UTF-8 text: the number of continuation bytes, and the range of the next.
pub record Expect : Type 0 where
  pub need : ℕ
  pub low : ℕ
  pub high : ℕ

abbrev fresh : Expect
fresh = record { need = 0; low = 0x80; high = 0xbf }

abbrev expect : ℕ → ℕ → ℕ → Option Expect
expect need low high = some (record { need = need; low = low; high = high })

unfoldable pub lead_byte : ℕ → Option Expect
lead_byte b =
    if ltb b 0x80
    then some fresh
    else if leb 0xc2 b && leb b 0xdf
    then expect 1 0x80 0xbf
    else if b == 0xe0
    then expect 2 0xa0 0xbf
    else if b == 0xed
    then expect 2 0x80 0x9f
    else if leb 0xe1 b && leb b 0xef
    then expect 2 0x80 0xbf
    else if b == 0xf0
    then expect 3 0x90 0xbf
    else if leb 0xf1 b && leb b 0xf3
    then expect 3 0x80 0xbf
    else if b == 0xf4
    then expect 3 0x80 0x8f
    else none

unfoldable pub next_byte : Expect → ℕ → Option Expect
unfolding lead_byte
next_byte e b =
    if e.need == 0
    then lead_byte b
    else if leb e.low b && leb b e.high
    then expect (e.need - 1) 0x80 0xbf
    else none

unfoldable pub utf8_from : Expect → Bytes → Bool
unfolding next_byte
utf8_from e [] = e.need == 0
utf8_from e (b ∷ bs) = elim (next_byte e b) [ none ↦ false | some e' ↦ utf8_from e' bs ]

-- `std::str::from_utf8`
unfoldable pub is_utf8 : Bytes → Bool
unfolding utf8_from
is_utf8 = utf8_from fresh

unfoldable pub strip_prefix : Bytes → Bytes → Option Bytes
strip_prefix [] bs = some bs
strip_prefix (p ∷ ps) [] = none
strip_prefix (p ∷ ps) (b ∷ bs) = if p == b then strip_prefix ps bs else none

-- The loop over the positions, from the difference so far.
unfoldable pub diff_from : ℕ → Bytes → Bytes → ℕ
diff_from diff (a ∷ as') (b ∷ bs) = diff_from (bit_or diff (bit_xor a b)) as' bs
diff_from diff _ _ = diff

unfoldable pub constant_time_eq : Bytes → Bytes → Bool
unfolding diff_from
constant_time_eq a b = if length a == length b then diff_from 0 a b == 0 else false

-- "AUTH "
abbrev pub auth_prefix : Bytes
auth_prefix = 65 ∷ 85 ∷ 84 ∷ 72 ∷ 32 ∷ []

unfoldable pub check_token : Option Bytes → Bytes → Bytes → Outcome Bytes
unfolding constant_time_eq
check_token none expected rest = err malformed
check_token (some token) expected rest =
    if constant_time_eq token expected then ok rest else err bad_token

unfoldable pub check_line : Bytes → Bytes → Outcome (Bytes × Bytes) → Outcome Bytes
unfolding strip_cr is_utf8 strip_prefix check_token
check_line prefix expected (err e) = err e
check_line prefix expected (ok (line, rest)) =
    let text = strip_cr line in
    if is_utf8 text then check_token (strip_prefix prefix text) expected rest else err malformed

-- Gives the bytes that stand after the line.
unfoldable pub consume_auth_line : Bytes → Bytes → Ending → Outcome Bytes
unfolding read_line check_line
consume_auth_line expected_token stream ending =
    check_line auth_prefix expected_token (read_line [] stream ending)
