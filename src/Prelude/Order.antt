-- ===== src/Prelude/Order.antt =====
-- The larger of two integers, and a stable sort by a test of two members.
use mathlib.Core.Bool.{Bool}
use mathlib.Core.List.{List, [], ◌∷◌}
use telegram_mcpvscode.Prelude.Tests.{if◌then◌else◌}
use telegram_mcpvscode.Prelude.Int.{ℤ, ltb_ℤ}

-- `Ord::max`: the second argument on a tie.
unfoldable pub max_ℤ : ℤ → ℤ → ℤ
max_ℤ a b = if ltb_ℤ b a then a else b

module _ {ℓ} {A : Type ℓ} (before : A → A → Bool) where
  -- A stable insertion: ahead of the first member that it may stand before.
  unfoldable pub insert_sorted : A → List A → List A
  insert_sorted x [] = x ∷ []
  insert_sorted x (y ∷ ys) = if before x y then x ∷ y ∷ ys else y ∷ insert_sorted x ys

  unfoldable pub sort : List A → List A
  unfolding insert_sorted
  sort [] = []
  sort (x ∷ xs) = insert_sorted x (sort xs)
