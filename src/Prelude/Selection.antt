-- ===== src/Prelude/Selection.antt =====
-- Laws of the list functions that select by a Boolean test.
use Prim.Native.Nat.{ℕ, ◌+◌, ◌≤◌, ◌<◌}
use mathlib.Core.Path.{◌≡◌, refl}
use mathlib.Core.Logic.{inl, inr}
use mathlib.Core.Bool.{Bool, true, false, not, ◌&&◌}
use mathlib.Core.Option.{none, some}
use mathlib.Core.List.{List, [], ◌∷◌, ◌++◌, map}
use native.Mathlib.Omega.{arith}
use telegram_mcpvscode.Prelude.Tests.{if◌then◌else◌, Bool-cases}
use telegram_mcpvscode.Prelude.Lists.{
  length, All, filter_by, find_by, count_by, any_by, update_first, remove_first,
}

abbrev pub one_if : Bool → ℕ
one_if b = if b then 1 else 0

abbrev pub IsTrue : Bool → Type 0
IsTrue b = b ≡ true

module _ {ℓ} {A : Type ℓ} where
  pub count_by-append :
      (p : A → Bool) (xs ys : List A) → count_by p (xs ++ ys) ≡ count_by p xs + count_by p ys
  unfolding count_by
  count_by-append p [] ys = omega arith
  count_by-append p (x ∷ xs) ys = omega (arith, count_by-append p xs ys)

  pub count_by-le-length : (p : A → Bool) (xs : List A) → count_by p xs ≤ length xs
  unfolding count_by
  count_by-le-length p [] = omega arith
  count_by-le-length p (x ∷ xs) = ground (arith, count_by-le-length p xs)

  -- A weaker test counts at least as many.
  pub count_by_mono :
      (p q : A → Bool) (xs : List A)
      → ((x : A) → p x ≡ true → q x ≡ true)
      → count_by p xs ≤ count_by q xs
  unfolding count_by
  count_by_mono p q [] h = omega arith
  count_by_mono p q (x ∷ xs) h = ground (arith, count_by_mono p q xs h, h x)

  pub count_by-filter_by :
      (p q : A → Bool) (xs : List A) → count_by p (filter_by q xs) ≡ count_by (λ x. q x && p x) xs
  unfolding count_by filter_by
  count_by-filter_by p q [] = refl
  count_by-filter_by p q (x ∷ xs) = ground (arith, count_by-filter_by p q xs)

  pub count_by-partition :
      (p q : A → Bool) (xs : List A)
      → count_by p (filter_by q xs) + count_by p (filter_by (λ x. not (q x)) xs) ≡ count_by p xs
  unfolding count_by filter_by
  count_by-partition p q [] = refl
  count_by-partition p q (x ∷ xs) = ground (arith, count_by-partition p q xs)

  pub filter_by_none :
      (p : A → Bool) (xs : List A) → count_by p xs ≡ 0 → filter_by (λ x. not (p x)) xs ≡ xs
  unfolding count_by filter_by
  filter_by_none p [] h = refl
  filter_by_none p (x ∷ xs) h = ground (arith, filter_by_none p xs)

  pub All-filter_by : (p : A → Bool) (xs : List A) → All (λ x. p x ≡ true) (filter_by p xs)
  unfolding filter_by
  All-filter_by p [] = tt
  All-filter_by p (x ∷ xs) = elim (Bool-cases (p x)) [
    | inl e ↦ rw e (e, All-filter_by p xs)
    | inr e ↦ rw e (All-filter_by p xs)
  ]

  pub count_by-remove_first :
      (p q : A → Bool) (b : Bool) (xs : List A)
      → ((x : A) → q x ≡ true → p x ≡ b)
      → 0 < count_by q xs
      → count_by p (remove_first q xs) + one_if b ≡ count_by p xs
  unfolding count_by remove_first
  count_by-remove_first p q b [] h some_q = absurd (omega arith)
  count_by-remove_first p q b (x ∷ xs) h some_q =
      ground (arith, h x, count_by-remove_first p q b xs h)

  pub count_by-update_first :
      (p q : A → Bool) (f : A → A) (xs : List A) {x : A}
      → find_by q xs ≡ some x
      → count_by p (update_first q f xs) + one_if (p x) ≡ count_by p xs + one_if (p (f x))
  unfolding count_by update_first find_by
  count_by-update_first p q f [] found = ground arith
  count_by-update_first p q f (y ∷ ys) {x = x} found = elim (Bool-cases (q y)) [
    | inl e ↦ rw e (ground arith)
    | inr e ↦ rw e (omega (arith, count_by-update_first p q f ys {x = x} (rw e at found)))
  ]

  pub count_by-find_by :
      (p q : A → Bool) (xs : List A) {x : A}
      → find_by q xs ≡ some x
      → p x ≡ true
      → 0 < count_by p xs
  unfolding count_by find_by
  count_by-find_by p q [] found h = ground arith
  count_by-find_by p q (y ∷ ys) {x = x} found h = elim (Bool-cases (q y)) [
    | inl e ↦ ground arith
    | inr e ↦ let more = count_by-find_by p q ys {x = x} (rw e at found) h in omega arith
  ]

  pub find_by-true : (q : A → Bool) (xs : List A) {x : A} → find_by q xs ≡ some x → q x ≡ true
  unfolding find_by
  find_by-true q [] found = ground arith
  find_by-true q (y ∷ ys) {x = x} found = elim (Bool-cases (q y)) [
    | inl e ↦ ground arith
    | inr e ↦ find_by-true q ys {x = x} (rw e at found)
  ]

  pub any_by-find_by :
      (q : A → Bool) (xs : List A) {x : A} → find_by q xs ≡ some x → any_by q xs ≡ true
  unfolding find_by any_by
  any_by-find_by q [] found = ground arith
  any_by-find_by q (y ∷ ys) {x = x} found = ground (arith, any_by-find_by q ys {x = x})

  pub any_by-find_by-none : (q : A → Bool) (xs : List A) → find_by q xs ≡ none → any_by q xs ≡ false
  unfolding find_by any_by
  any_by-find_by-none q [] found = refl
  any_by-find_by-none q (y ∷ ys) found = ground (arith, any_by-find_by-none q ys)

  pub find_by-update_first :
      (q : A → Bool) (f : A → A) (xs : List A) {x : A}
      → find_by q xs ≡ some x
      → ((y : A) → q (f y) ≡ true)
      → find_by q (update_first q f xs) ≡ some (f x)
  unfolding find_by update_first
  find_by-update_first q f [] found h = ground arith
  find_by-update_first q f (y ∷ ys) {x = x} found h =
      ground (arith, h y, find_by-update_first q f ys {x = x})

  -- A test that neither the old nor the new member passes finds what it found.
  pub find_by-update_first_ne :
      (p q : A → Bool) (f : A → A) (xs : List A)
      → ((y : A) → q y ≡ true → p y ≡ false)
      → ((y : A) → p (f y) ≡ false)
      → find_by p (update_first q f xs) ≡ find_by p xs
  unfolding find_by update_first
  find_by-update_first_ne p q f [] h k = refl
  find_by-update_first_ne p q f (y ∷ ys) h k =
      ground (arith, h y, k y, find_by-update_first_ne p q f ys h k)

  pub find_by-append_none :
      (q : A → Bool) (xs ys : List A) → find_by q xs ≡ none → find_by q (xs ++ ys) ≡ find_by q ys
  unfolding find_by
  find_by-append_none q [] ys h = refl
  find_by-append_none q (x ∷ xs) ys h = ground (arith, find_by-append_none q xs ys)

  pub find_by-append_ne :
      (p : A → Bool) (xs : List A) (y : A) → p y ≡ false → find_by p (xs ++ (y ∷ [])) ≡ find_by p xs
  unfolding find_by
  find_by-append_ne p [] y h = rw h
  find_by-append_ne p (x ∷ xs) y h = rw (find_by-append_ne p xs y h)

module _ {ℓ κ} {A : Type ℓ} {B : Type κ} where
  pub count_by-map :
      (p : B → Bool) (f : A → B) (xs : List A) → count_by p (map f xs) ≡ count_by (λ x. p (f x)) xs
  unfolding count_by
  count_by-map p f [] = refl
  count_by-map p f (x ∷ xs) = omega (arith, count_by-map p f xs)

module _ {ℓ} {A : Type ℓ} where
  pub filter_by-filter_by :
      (p q : A → Bool) (xs : List A) → filter_by p (filter_by q xs) ≡ filter_by (λ x. p x && q x) xs
  unfolding filter_by
  filter_by-filter_by p q [] = refl
  filter_by-filter_by p q (x ∷ xs) = ground (arith, filter_by-filter_by p q xs)

  -- A member that passes both tests is lost when the members that pass the second are taken out.
  pub count_by-filter_by-lt :
      (p q : A → Bool) (xs : List A) {x : A}
      → find_by q xs ≡ some x
      → p x ≡ true
      → count_by p (filter_by (λ y. not (q y)) xs) < count_by p xs
  unfolding count_by filter_by find_by
  count_by-filter_by-lt p q [] found h = ground arith
  count_by-filter_by-lt p q (y ∷ ys) {x = x} found h = elim (Bool-cases (q y)) [
    | inl e ↦
        let fewer = count_by_mono (λ z. not (q z) && p z) p ys (λ z k. ground arith) in
        let both = count_by-filter_by p (λ z. not (q z)) ys in rw e (ground (arith, fewer, both))
    | inr e ↦
        let rest = count_by-filter_by-lt p q ys {x = x} (rw e at found) h in
        rw e (omega (arith, rest))
  ]

  pub All-filter_by_sub {κ} :
      (P : A → Type κ) (p : A → Bool) (xs : List A) → All P xs → All P (filter_by p xs)
  unfolding filter_by
  All-filter_by_sub P p [] h = tt
  All-filter_by_sub P p (x ∷ xs) h = elim (Bool-cases (p x)) [
    | inl e ↦ rw e (h.0, All-filter_by_sub P p xs h.1)
    | inr e ↦ rw e (All-filter_by_sub P p xs h.1)
  ]
