-- ===== src/Client/Authz/Diff.antt =====
-- authz_diff.go: which entries of a bundle changed.
pub mod Laws
use gitseal.Prelude.{
  ℕ, ◌≡◌, Bool, true, false, Option, none, some, List, [], ◌∷◌, ◌++◌, Text, text_eq, text_key, any,
  ◌&&◌, if◌then◌else◌,
}
use gitseal.Prelude.Dict.{Dict, lookup}
use gitseal.Client.Bundle.{EnvSection, SealedBundle, or_nil, entry_of}

pub data EntryChangeKind : Type 0 where
  added removed changed : EntryChangeKind

-- EntryChange
pub record EntryChange : Type 0 where
  pub file : Text
  pub env : Text
  pub key : Text
  pub kind : EntryChangeKind

abbrev pub entry_change : Text → Text → EntryChangeKind → EntryChange
entry_change env key kind = record { file = []; env = env; key = key; kind = kind }

-- one current entry against the prior one
abbrev pub current_change : Text → Text → Text → Option Text → List EntryChange → List EntryChange
current_change env key ct none out = entry_change env key added ∷ out
current_change env key ct (some prior) out =
    if text_eq prior ct then out else entry_change env key changed ∷ out

unfoldable pub walk_current : Text → Option EnvSection → Dict Text Text → List EntryChange
walk_current env prior [] = []
walk_current env prior ((key, ct) ∷ rest) =
    current_change env key ct (entry_of prior key) (walk_current env prior rest)

unfoldable pub current_changes : Dict Text EnvSection → Dict Text EnvSection → List EntryChange
unfolding walk_current
current_changes prior [] = []
current_changes prior ((env, sec) ∷ rest) =
    walk_current env (lookup env prior) (or_nil sec.entries) ++ current_changes prior rest

-- one prior entry against the current one
abbrev pub removed_change : Text → Text → Option Text → List EntryChange → List EntryChange
removed_change env key none out = entry_change env key removed ∷ out
removed_change env key (some _) out = out

unfoldable pub walk_prior : Text → Option EnvSection → Dict Text Text → List EntryChange
walk_prior env cur [] = []
walk_prior env cur ((key, ct) ∷ rest) =
    removed_change env key (entry_of cur key) (walk_prior env cur rest)

unfoldable pub prior_changes : Dict Text EnvSection → Dict Text EnvSection → List EntryChange
unfolding walk_prior
prior_changes cur [] = []
prior_changes cur ((env, sec) ∷ rest) =
    walk_prior env (lookup env cur) (or_nil sec.entries) ++ prior_changes cur rest

-- the sections of a bundle that may be absent
abbrev pub sections : Option SealedBundle → Dict Text EnvSection
sections none = []
sections (some b) = or_nil b.envs

-- DiffBundleEntries
unfoldable pub diff_bundle_entries : Option SealedBundle → Option SealedBundle → List EntryChange
unfolding current_changes prior_changes
diff_bundle_entries prior cur =
    current_changes (sections prior) (sections cur) ++ prior_changes (sections cur) (sections prior)

-- The loop of EnvsTouched: each env once, in the order of its first change.
unfoldable pub distinct_envs : List EntryChange → List Text → List Text
distinct_envs [] seen = seen
distinct_envs (c ∷ cs) seen =
    distinct_envs cs (if any (text_eq c.env) seen then seen else seen ++ c.env ∷ [])
