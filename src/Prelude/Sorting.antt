-- ===== src/Prelude/Sorting.antt =====
-- Laws of `sort`: the result is in order and has the same members.
use Prim.Native.Nat.{ℕ, zero, suc, ◌<◌}
use mathlib.Core.Path.{◌≡◌, refl}
use mathlib.Core.Logic.{inl, inr}
use mathlib.Core.Bool.{Bool, true, false, not}
use mathlib.Core.List.{List, [], ◌∷◌}
use native.Mathlib.Omega.{arith}
use telegram_mcpvscode.Prelude.Tests.{Bool-cases}
use telegram_mcpvscode.Prelude.Lists.{length, take, All, All-mono, All-take, count_by}
use telegram_mcpvscode.Prelude.Order.{insert_sorted, sort}

module _ {ℓ} {A : Type ℓ} (before : A → A → Bool) where
  -- Each member may stand before all that follow it.
  abbrev pub IsOrdered : List A → Type 0
  IsOrdered [] = Unit
  IsOrdered (x ∷ xs) = All (λ y. before x y ≡ true) xs × IsOrdered xs

  pub length-insert_sorted :
      (x : A) (xs : List A) → length (insert_sorted before x xs) ≡ suc (length xs)
  unfolding insert_sorted
  length-insert_sorted x [] = refl
  length-insert_sorted x (y ∷ ys) = ground (arith, length-insert_sorted x ys)

  pub length-sort : (xs : List A) → length (sort before xs) ≡ length xs
  unfolding sort
  length-sort [] = refl
  length-sort (x ∷ xs) = omega (arith, length-insert_sorted x (sort before xs), length-sort xs)

  count_by-insert_sorted :
      (p : A → Bool) (x : A) (xs : List A)
      → count_by p (insert_sorted before x xs) ≡ count_by p (x ∷ xs)
  unfolding insert_sorted count_by
  count_by-insert_sorted p x [] = refl
  count_by-insert_sorted p x (y ∷ ys) = ground (arith, count_by-insert_sorted p x ys)

  pub count_by-sort : (p : A → Bool) (xs : List A) → count_by p (sort before xs) ≡ count_by p xs
  unfolding sort count_by
  count_by-sort p [] = refl
  count_by-sort p (x ∷ xs) =
      omega (arith, count_by-insert_sorted p x (sort before xs), count_by-sort p xs)

  All-insert_sorted {κ} :
      (P : A → Type κ) (x : A) (xs : List A) → P x → All P xs → All P (insert_sorted before x xs)
  unfolding insert_sorted
  All-insert_sorted P x [] px all = (px, tt)
  All-insert_sorted P x (y ∷ ys) px (py, all) = elim (Bool-cases (before x y)) [
    | inl e ↦ rw e (px, (py, all))
    | inr e ↦ rw e (py, All-insert_sorted P x ys px all)
  ]

  pub All-sort {κ} : (P : A → Type κ) (xs : List A) → All P xs → All P (sort before xs)
  unfolding sort
  All-sort P [] all = tt
  All-sort P (x ∷ xs) (px, all) = All-insert_sorted P x (sort before xs) px (All-sort P xs all)

  module _ (total : (x y : A) → before x y ≡ false → before y x ≡ true)
      (trans : (x y z : A) → before x y ≡ true → before y z ≡ true → before x z ≡ true) where
    insert_sorted-IsOrdered :
        (x : A) (xs : List A) → IsOrdered xs → IsOrdered (insert_sorted before x xs)
    unfolding insert_sorted
    insert_sorted-IsOrdered x [] h = (tt, tt)
    insert_sorted-IsOrdered x (y ∷ ys) (least, h) = elim (Bool-cases (before x y)) [
      | inl e ↦ rw e ((e, All-mono _ _ ys (λ z. trans x y z e) least), (least, h))
      | inr e ↦ rw e (
        All-insert_sorted (λ z. before y z ≡ true) x ys (total x y e) least,
        insert_sorted-IsOrdered x ys h,
      )
    ]

    pub sort-IsOrdered : (xs : List A) → IsOrdered (sort before xs)
    unfolding sort
    sort-IsOrdered [] = tt
    sort-IsOrdered (x ∷ xs) = insert_sorted-IsOrdered x (sort before xs) (sort-IsOrdered xs)

  pub take-IsOrdered : (n : ℕ) (xs : List A) → IsOrdered xs → IsOrdered (take n xs)
  take-IsOrdered zero xs h = tt
  take-IsOrdered (suc n) [] h = tt
  take-IsOrdered (suc n) (x ∷ xs) h =
      (All-take (λ y. before x y ≡ true) n xs h.0, take-IsOrdered n xs h.1)

-- Members that a later one may also stand before do not count against it.
count_by_none {ℓ} :
    {A : Type ℓ} (p : A → Bool) (xs : List A) → All (λ x. p x ≡ false) xs → count_by p xs ≡ 0
unfolding count_by
count_by_none p [] h = refl
count_by_none p (x ∷ xs) h = rw (h.0, count_by_none p xs h.1)

abbrev pub ahead {ℓ} : {A : Type ℓ} → (A → A → Bool) → A → A → Bool
ahead before r s = not (before r s)

module _ {ℓ} {A : Type ℓ} (before : A → A → Bool) (reflexive : (x : A) → before x x ≡ true) where
  -- Fewer than `n` members come strictly ahead of one of the first `n`.
  pub take_rank :
      (n : ℕ) (xs : List A)
      → IsOrdered before xs
      → All (λ r. count_by (ahead before r) xs < n) (take n xs)
  unfolding count_by
  take_rank zero xs h = tt
  take_rank (suc n) [] h = tt
  take_rank (suc n) (x ∷ xs) (least, h) = (
    rw (reflexive x) (
        let none_ahead =
          count_by_none (ahead before x) xs (All-mono _ _ xs (λ y e. ground arith) least) in
        omega (arith, none_ahead)),
    All-mono _ _ (take n xs) (λ r e. ground arith) (take_rank n xs h),
  )
