-- ===== src/LocalPipe/Auth/Tables.antt =====
-- The comparison of two tokens decides their equality, as the two bit operations do on bytes.
use Prim.Native.Nat.{bit_or, bit_xor}
use telegram_mcpvscode.Prelude.{
  ℕ, zero, suc, ◌<◌, Bool, true, ◌&&◌, [], ◌∷◌, ◌≡◌, ◌↔◌, refl, arith, ltb, ◌==◌, if◌then◌else◌,
  length, All, ap, not, Bool-cases, inl, inr,
}
use telegram_mcpvscode.LocalPipe.Auth.{Bytes, diff_from, constant_time_eq}

-- The test holds of the first numbers, as many as there are values of a byte.
every : (ℕ → Bool) → ℕ → Bool
every test zero = true
every test (suc count) = let earlier = every test count in if test count then earlier else not true

every_lem :
    (test : ℕ → Bool) (count : ℕ) {b : ℕ} → b < count → every test count ≡ true → test b ≡ true
unfolding every
every_lem test zero lt h = absurd (omega (arith, lt))
every_lem test (suc count) {b} lt h = elim (Bool-cases (b == count)) [
  | inl last ↦ let e : b ≡ count = ground arith in ground (arith, e)
  | inr before ↦ every_lem test count (ground arith) (ground arith)
]

abbrev same : Bool → Bool → Bool
same a b = if a then b else not b

abbrev xor_fact : ℕ → ℕ → Bool
xor_fact x y = same (bit_xor x y == 0) (x == y) && ltb (bit_xor x y) 256

abbrev or_fact : ℕ → ℕ → Bool
or_fact x y = same (bit_or x y == 0) (x == 0 && y == 0) && ltb (bit_or x y) 256

xor_table : every (λ x. every (xor_fact x) 256) 256 ≡ true
unfolding every
xor_table = refl

or_table : every (λ x. every (or_fact x) 256) 256 ≡ true
unfolding every
or_table = refl

xor_of_bytes : (x y : ℕ) → x < 256 → y < 256 → xor_fact x y ≡ true
xor_of_bytes x y hx hy =
    every_lem (xor_fact x) 256 hy (every_lem (λ x. every (xor_fact x) 256) 256 hx xor_table)

or_of_bytes : (x y : ℕ) → x < 256 → y < 256 → or_fact x y ≡ true
or_of_bytes x y hx hy =
    every_lem (or_fact x) 256 hy (every_lem (λ x. every (or_fact x) 256) 256 hx or_table)

abbrev pub IsByte : ℕ → Type 0
IsByte b = b < 256

-- The difference stays 0 exactly as long as the bytes agree.
diff_from_iff :
    (d : ℕ) (a b : Bytes)
    → d < 256
    → All IsByte a
    → All IsByte b
    → length a ≡ length b
    → (diff_from d a b ≡ 0) ↔ ((d ≡ 0) × (a ≡ b))
unfolding diff_from
diff_from_iff d [] [] hd ha hb e = (λ h. (h, refl), λ h. h.0)
diff_from_iff d [] (y ∷ b) hd ha hb e = absurd (omega arith)
diff_from_iff d (x ∷ a) [] hd ha hb e = absurd (omega arith)
diff_from_iff d (x ∷ a) (y ∷ b) hd (hx, ha) (hy, hb) e =
    let xored = xor_of_bytes x y hx hy in
    let small : bit_xor x y < 256 = ground arith in
    let ored = or_of_bytes d (bit_xor x y) hd small in
    let rest = diff_from_iff (bit_or d (bit_xor x y)) a b (ground arith) ha hb (omega arith) in
    (
      λ h.
          let (zero_d, same_rest) = rest.0 h in
          let d0 : d ≡ 0 = ground arith in
          let xy : x ≡ y = ground arith in (d0, cc (xy, same_rest)),
      λ (d0, ab).
          let xy : x ≡ y = ground arith in
          let tails : a ≡ b = ground arith in rest.1 (ground arith, tails),
    )

-- On lists of bytes the comparison says true exactly if the lists are equal.
pub constant_time_eq_iff :
    (a b : Bytes) → All IsByte a → All IsByte b → (constant_time_eq a b ≡ true) ↔ (a ≡ b)
unfolding constant_time_eq
constant_time_eq_iff a b ha hb = (
  λ h.
      let e : length a ≡ length b = ground arith in
      ((diff_from_iff 0 a b (omega arith) ha hb e).0 (ground arith)).1,
  λ h.
      let e : length a ≡ length b = ap length h in
      let z = (diff_from_iff 0 a b (omega arith) ha hb e).1 (refl, h) in ground (arith, e, z),
)
