-- ===== src/McpServer/FilePaths.antt =====
-- `resolve_file_path` of crates/mcp-server/src/main.rs, over the components of a path as
-- `std::path` reads them on Windows and elsewhere.
use telegram_mcpvscode.Prelude.{
  String, Bool, true, false, not, ◌&&◌, ◌||◌, Option, none, some, List, [], ◌∷◌, ◌++◌, ◌≡◌, refl,
  ap, ◌↔◌, ◌⊎◌, inl, inr, Bool-cases, arith, if◌then◌else◌,
}
use telegram_mcpvscode.Prelude.Options.{is_some}
use telegram_mcpvscode.Prelude.Lists.{any_by}

pub data Part : Type 0 where
  cur_dir parent_dir : Part
  normal : String → Part

-- `prefix` is a drive or a share, and stands only in paths of Windows; `rooted` says whether a
-- separator follows it.
pub record FilePath : Type 0 where
  pub prefix : Option String
  pub rooted : Bool
  pub parts : List Part

abbrev pub is_parent : Part → Bool
is_parent parent_dir = true
is_parent _ = false

pub data PathError : Type 0 where
  has_parent not_relative : PathError

pub data Resolution : Type 0 where
  ok : FilePath → Resolution
  err : PathError → Resolution

module _ (windows : Bool) where
  -- `Path::is_absolute`: on Windows a root alone is not enough.
  abbrev pub is_absolute : FilePath → Bool
  is_absolute p = p.rooted && (not windows || is_some p.prefix)

  -- `Path::join`: an absolute path, or one with a prefix, replaces the base; on Windows a path with
  -- a root alone replaces all but the prefix of the base.
  abbrev pub join : FilePath → FilePath → FilePath
  join root p =
      if is_absolute p || is_some p.prefix
      then p
      else if p.rooted
      then record p { prefix = root.prefix }
      else record root { parts = root.parts ++ p.parts }

  abbrev confine : Option FilePath → FilePath → Resolution
  confine none p = ok p
  confine (some root) p = if is_absolute p then err not_relative else ok (join root p)

  unfoldable pub resolve_file_path : FilePath → Option FilePath → Resolution
  unfolding any_by
  resolve_file_path p file_root =
      if any_by is_parent p.parts then err has_parent else confine file_root p

any_by-of-append {ℓ} :
    {A : Type ℓ} (p : A → Bool) (xs ys : List A) → any_by p (xs ++ ys) ≡ false → any_by p ys ≡ false
unfolding any_by
any_by-of-append p [] ys h = h
any_by-of-append p (x ∷ xs) ys h = any_by-of-append p xs ys (ground arith)

-- The path is below the root: the root, and then parts that do not lead upwards.
abbrev pub IsBelow : FilePath → FilePath → Type 0
IsBelow root q =
    (rest : List Part) × (q ≡ record root { parts = root.parts ++ rest })
    × (any_by is_parent rest ≡ false)

-- Where paths have no prefix, as everywhere but on Windows, a path that is accepted under a
-- configured root resolves to the root followed by parts that do not lead upwards.
pub resolve_file_path_confined :
    (p root : FilePath) {q : FilePath}
    → p.prefix ≡ none
    → resolve_file_path false p (some root) ≡ ok q
    → IsBelow root q
unfolding resolve_file_path
resolve_file_path_confined p root {q} plain h = (p.parts, ground arith, ground arith)

IsBelow-parts :
    (root p : FilePath)
    → any_by is_parent p.parts ≡ false
    → IsBelow root (record p { prefix = root.prefix })
      ↔ ((p.rooted ≡ root.rooted) × ((rest : List Part) × (p.parts ≡ root.parts ++ rest)))
IsBelow-parts root p safe = (
  λ (rest, same, down). (ap (λ q. q.rooted) same, (rest, ap (λ q. q.parts) same)),
  λ (rooted, (rest, parts)). (
    rest,
    rw (rooted, parts) refl,
    any_by-of-append is_parent root.parts rest (rw parts at safe),
  ),
)

-- On Windows a path with no drive and no `..` is accepted under any configured root that is absolute,
-- and what it resolves to is below that root exactly when the path has no root of its own, or its
-- parts begin with those of the configured root: any other path with a root of its own escapes.
pub resolve_file_path_escapes :
    (p root : FilePath)
    → p.prefix ≡ none
    → any_by is_parent p.parts ≡ false
    → is_absolute true root ≡ true
    → (q : FilePath) × (resolve_file_path true p (some root) ≡ ok q)
      × (IsBelow root q
          ↔ ((p.rooted ≡ false) ⊎ ((rest : List Part) × (p.parts ≡ root.parts ++ rest))))
unfolding resolve_file_path
resolve_file_path_escapes p root plain safe absolute = elim (Bool-cases p.rooted) [
  | inr relative ↦ (
    record root { parts = root.parts ++ p.parts },
    ground arith,
    (λ below. inl relative, λ _. (p.parts, refl, safe)),
  )
  | inl rooted ↦
      let same_root : p.rooted ≡ root.rooted = ground arith in
      let (there, back) = IsBelow-parts root p safe in
      (
        record p { prefix = root.prefix },
        ground arith,
        (
          λ below. inr (there below).1,
          λ h. elim h [
            | inl relative ↦ absurd (cc (rooted, relative))
            | inr begins ↦ back (same_root, begins)
          ],
        ),
      )
]
