-- ===== src/LocalPipe/Process/Ancestry.antt =====
-- Which processes the walk collects, and where it ends.
use telegram_mcpvscode.Prelude.{
  ℕ, zero, suc, ◌+◌, ◌≤◌, ◌≢◌, false, Option, none, some, List, [], ◌∷◌, ◌++◌, ◌≡◌, refl, sym, ap,
  ◌∙◌, ◌⊎◌, inl, inr, ◌↔◌, arith, ==_iff, length, All,
}
use telegram_mcpvscode.Prelude.Lists.{any_by, length-append}
use telegram_mcpvscode.Prelude.Options.{bind-eq-some}
use telegram_mcpvscode.LocalPipe.Process.{
  new_parent, ProcInfo, Snapshot, contains, next_parent, walk, ancestry_in,
}

-- A chain from its last process goes on to a parent that it does not have yet.
abbrev pub Extends : Snapshot → List ℕ → ℕ → ℕ → Type 0
Extends snap chain last parent =
    (info : ProcInfo) × (snap last ≡ some info)
    × (info.parent ≡ parent)
    × (parent ≢ 0)
    × (parent ≢ last)
    × All (λ p. p ≢ parent) chain

-- The chain leads from `pid` to `last`, each process after its child and none twice.
pub data IsAncestry (snap : Snapshot) (pid : ℕ) : List ℕ → ℕ → Type 0 where
  itself : IsAncestry snap pid (pid ∷ []) pid
  then_parent :
      (chain : List ℕ) (last parent : ℕ)
      → IsAncestry snap pid chain last
      → Extends snap chain last parent
      → IsAncestry snap pid (chain ++ (parent ∷ [])) parent

contains_iff : (chain : List ℕ) (q : ℕ) → (contains chain q ≡ false) ↔ All (λ p. p ≢ q) chain
unfolding contains any_by
contains_iff [] q = ((λ _. tt), λ _. refl)
contains_iff (p ∷ ps) q = ground (arith, contains_iff ps q, ==_iff p q)

new_parent-some :
    (chain : List ℕ) (cur p q : ℕ)
    → new_parent chain cur p ≡ some q
    → (p ≡ q) × (q ≢ 0) × (q ≢ cur) × (contains chain q ≡ false)
new_parent-some chain cur p q h = ground arith

new_parent-none :
    (chain : List ℕ) (cur p : ℕ)
    → new_parent chain cur p ≡ none
    → p ≢ 0
    → p ≢ cur
    → contains chain p ≡ false
    → ⊥
new_parent-none chain cur p h some_parent no_loop new = ground arith

next_parent-some :
    (snap : Snapshot) (chain : List ℕ) (cur parent : ℕ)
    → next_parent snap chain cur ≡ some parent
    → Extends snap chain cur parent
unfolding next_parent
next_parent-some snap chain cur parent h =
    let (info, known, taken) = bind-eq-some (snap cur) _ h in
    let (is_parent, some_parent, no_loop, new) =
      new_parent-some chain cur info.parent parent taken in
    (info, known, is_parent, some_parent, no_loop, (contains_iff chain parent).0 new)

next_parent-none :
    (snap : Snapshot) (chain : List ℕ) (cur parent : ℕ)
    → next_parent snap chain cur ≡ none
    → ¬ Extends snap chain cur parent
unfolding next_parent
next_parent-none snap chain cur parent h (info, known, is_parent, some_parent, no_loop, new) =
    new_parent-none chain cur parent
      (sym (ap (λ p. new_parent chain cur p) is_parent) ∙ sym (rw known refl) ∙ h) some_parent
      no_loop ((contains_iff chain parent).1 new)

-- The chain is an ancestry of `pid`, of at most `most` processes; where it has fewer, no parent could be added.
abbrev pub IsFullAncestry : Snapshot → ℕ → ℕ → List ℕ → Type 0
IsFullAncestry snap pid most chain =
    (last : ℕ) × IsAncestry snap pid chain last
    × (((parent : ℕ) → ¬ Extends snap chain last parent) ⊎ (length chain ≡ most))
    × (length chain ≤ most)

walk-IsFullAncestry :
    (snap : Snapshot) (pid rounds most : ℕ) (chain : List ℕ) (cur : ℕ)
    → IsAncestry snap pid chain cur
    → length chain + rounds ≡ most
    → IsFullAncestry snap pid most (walk snap rounds chain cur)
unfolding walk
walk-IsFullAncestry snap pid zero most chain cur h n = (cur, h, inr (omega arith), omega arith)
walk-IsFullAncestry snap pid (suc rounds) most chain cur h n =
    go (next_parent snap chain cur) refl (λ parent more.
      walk-IsFullAncestry snap pid rounds most (chain ++ (parent ∷ [])) parent
        (then_parent chain cur parent h more) (omega (arith, length-append chain (parent ∷ []))))
  where
    go :
        (o : Option ℕ)
        → next_parent snap chain cur ≡ o
        → ((parent : ℕ)
            → Extends snap chain cur parent
            → IsFullAncestry snap pid most (walk snap rounds (chain ++ (parent ∷ [])) parent))
        → IsFullAncestry snap pid most (walk snap (suc rounds) chain cur)
    go none e further =
        rw (e, walk) (cur, h, inl (λ parent. next_parent-none snap chain cur parent e), omega arith)
    go (some parent) e further =
        rw (e, walk) (further parent (next_parent-some snap chain cur parent e))

-- The chain starts with the process, each further one is the parent of the one before it, none is 0
-- and none is there twice. It has at most 33 processes, and where it has fewer no parent could be
-- added.
pub ancestry_in-IsFullAncestry :
    (snap : Snapshot) (pid : ℕ) → IsFullAncestry snap pid 33 (ancestry_in snap pid)
unfolding ancestry_in
ancestry_in-IsFullAncestry snap pid = walk-IsFullAncestry snap pid 32 33 (pid ∷ []) pid itself refl
