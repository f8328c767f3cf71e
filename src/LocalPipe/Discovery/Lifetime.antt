-- ===== src/LocalPipe/Discovery/Lifetime.antt =====
-- The files that a server leaves in the discovery directory.
use telegram_mcpvscode.Prelude.{
  String, ℕ, Bool, true, false, Option, none, some, List, [], ◌∷◌, ◌≡◌, ◌≢◌, refl, ◌⊎◌, inl, inr,
  arith, eq_iff, ◌∙◌,
}
use telegram_mcpvscode.LocalPipe.Server.{Event, Listener}
use telegram_mcpvscode.LocalPipe.Discovery.{
  DiscoveryRecord, Files, lookup, put, drop, file_name, WriteEnd, no_directory, refused, written,
  torn, remove, Startup, record_of, serve,
}

pub lookup-put_self : (name text : String) (fs : Files) → lookup name (put name text fs) ≡ some text
unfolding lookup put
lookup-put_self name text [] = ground (arith, eq_iff name name)
lookup-put_self name text ((n, old) ∷ fs) =
    ground (arith, eq_iff n name, lookup-put_self name text fs)

lookup-put_other :
    (name other text : String) (fs : Files)
    → other ≢ name
    → lookup other (put name text fs) ≡ lookup other fs
unfolding lookup put
lookup-put_other name other text [] h = ground (arith, eq_iff name other)
lookup-put_other name other text ((n, old) ∷ fs) h =
    ground
      (arith, eq_iff n name, eq_iff n other, eq_iff name other, lookup-put_other name other text fs)

lookup-drop_self : (name : String) (fs : Files) → lookup name (drop name fs) ≡ none
unfolding lookup drop
lookup-drop_self name [] = refl
lookup-drop_self name ((n, old) ∷ fs) = ground (arith, lookup-drop_self name fs)

lookup-drop_other :
    (name other : String) (fs : Files)
    → other ≢ name
    → lookup other (drop name fs) ≡ lookup other fs
unfolding lookup drop
lookup-drop_other name other [] h = refl
lookup-drop_other name other ((n, old) ∷ fs) h =
    ground (arith, eq_iff n name, eq_iff n other, lookup-drop_other name other fs)

-- What is left of a record that could not be written: the file as it was, or the part that was written.
abbrev pub LeftAs : WriteEnd → Option String → Option String → Type 0
LeftAs how before after =
    (after ≡ before) ⊎ ((part : String) × (how ≡ torn part) × (after ≡ some part))

pub data IsTidy (how : WriteEnd) (removes : Bool) (name : String) (text : Option String)
    (fs : Files) : Option Listener × Files → Type 0 where
  began :
      (l : Listener) (left : Files)
      → how ≡ written
      → text ≢ none
      → ((other : String) → other ≢ name → lookup other left ≡ lookup other fs)
      → (removes ≡ true → lookup name left ≡ none)
      → IsTidy how removes name text fs (some l, left)
  failed :
      (left : Files)
      → (how ≢ written) ⊎ (text ≡ none)
      → ((other : String) → other ≢ name → lookup other left ≡ lookup other fs)
      → LeftAs how (lookup name fs) (lookup name left)
      → IsTidy how removes name text fs (none, left)

remove_others :
    (removes : Bool) (pid : ℕ) (fs : Files) (other : String)
    → other ≢ file_name pid
    → lookup other (remove removes pid fs) ≡ lookup other fs
unfolding remove
remove_others true pid fs other h = lookup-drop_other (file_name pid) other fs h
remove_others false pid fs other h = refl

remove_gone :
    (removes : Bool) (pid : ℕ) (fs : Files)
    → removes ≡ true
    → lookup (file_name pid) (remove removes pid fs) ≡ none
unfolding remove
remove_gone true pid fs h = lookup-drop_self (file_name pid) fs
remove_gone false pid fs h = cc

module _ (to_string_pretty : DiscoveryRecord → Option String) (removes secured : Bool) where
  -- However the write of the record ends, and whatever happens in the accept loop until it ends or is
  -- dropped, the files of other names are as they were. If the loop began, the record was written, and
  -- its file is gone at the end if it can be removed. If not, the record has no text or the write
  -- failed, and its file is as it was before or has a part of the text.
  pub serve-IsTidy :
      (how : WriteEnd) (s : Startup) (events : List Event) (fs : Files)
      → IsTidy how removes
          (file_name s.pid)
          (to_string_pretty (record_of s))
          fs
          (serve to_string_pretty how removes secured s events fs)
  unfolding serve
  serve-IsTidy how s events fs = go how (to_string_pretty (record_of s)) refl
    where
      name : String
      name = file_name s.pid

      go :
          (how : WriteEnd) (text : Option String)
          → to_string_pretty (record_of s) ≡ text
          → IsTidy how removes
              (file_name s.pid)
              text
              fs
              (serve to_string_pretty how removes secured s events fs)
      go how none e = rw e (failed fs (inr refl) (λ other h. refl) (inl refl))
      go no_directory (some text) e =
          rw e (failed fs (inl (λ h. cc h)) (λ other h. refl) (inl refl))
      go refused (some text) e = rw e (failed fs (inl (λ h. cc h)) (λ other h. refl) (inl refl))
      go (torn part) (some text) e = rw e (
          failed (put name part fs) (inl (λ h. cc h))
            (λ other h. lookup-put_other name other part fs h)
            (inr (part, refl, lookup-put_self name part fs)))
      go written (some text) e = rw e (
          began _ (remove removes s.pid (put name text fs)) refl (λ h. cc h)
            (λ other h.
              remove_others removes s.pid (put name text fs) other h
              ∙ lookup-put_other name other text fs h)
            (remove_gone removes s.pid (put name text fs)))
