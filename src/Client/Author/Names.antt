-- ===== src/Client/Author/Names.antt =====
-- bundle.go: the difference of two lists of names, and resolve.go: the matrix that is sealed.
use gitseal.Prelude.{
  Bool, not, List, [], ◌∷◌, Text, text_key, text_eq, any, if◌then◌else◌, none, some, Option,
}
use gitseal.Prelude.Dict.{Dict, lookup, insert}

-- NameDiff
pub record NameDiff : Type 0 where
  pub added : List Text
  pub removed : List Text
  pub kept : List Text

-- `set[n]` of a set filled from a list
abbrev pub listed_name : Text → List Text → Bool
listed_name n = any (text_eq n)

unfoldable pub filter : (Text → Bool) → List Text → List Text
filter p [] = []
filter p (n ∷ ns) = let rest = filter p ns in if p n then n ∷ rest else rest

-- DiffNames: each of the two loops, one list at a time
unfoldable pub diff_names : List Text → List Text → NameDiff
unfolding filter
diff_names old_names new_names = record {
  added = filter (λ n. not (listed_name n old_names)) new_names;
  removed = filter (λ n. not (listed_name n new_names)) old_names;
  kept = filter (λ n. listed_name n old_names) new_names;
}

-- `for k, v := range over { m[k] = v }`
unfoldable pub overlay {ℓ} : {V : Type ℓ} → Dict Text V → Dict Text V → Dict Text V
overlay m [] = m
overlay m ((k, v) ∷ over) = overlay (insert k v m) over

-- ranging over a nil map does nothing
abbrev pub or_empty : Option (Dict Text Text) → Dict Text Text
or_empty none = []
or_empty (some d) = d

-- ResolveEnvs
unfoldable pub resolve_envs :
    Dict Text Text
    → Dict Text (Dict Text Text)
    → List Text
    → Dict Text (Dict Text Text)
    → Dict Text (Dict Text Text)
unfolding overlay
resolve_envs base overrides [] out = out
resolve_envs base overrides (env ∷ envs) out =
    resolve_envs base overrides envs
      (insert env (overlay (overlay [] base) (or_empty (lookup env overrides))) out)
