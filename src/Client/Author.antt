-- ===== src/Client/Author.antt =====
-- sealedbundle_v4.go and sealedbundle.go: sealing a bundle. `prior` is the bundle that LoadBundle read
-- at the path, `none` where it failed; the result is the bundle that is written, with the differences.
-- `coins` is the randomness of each entry's encryption.
pub mod Names
pub mod Reseal
pub mod Values
pub mod Delivery
pub mod Total
pub mod Flat
use gitseal.Prelude.{
  ℕ, Bool, true, not, ◌&&◌, ◌||◌, Option, none, some, List, [], ◌∷◌, Text, text, text_key, text_eq,
  ℤ, pos, eqb_ℤ, is_empty, if◌then◌else◌, Result, ok, err, ◌>>=◌, ◌>>◌, refuse_if, require,
}
use gitseal.Prelude.Dict.{Dict, lookup, insert, keys, erase}
use gitseal.Prelude.Sort.{sort_texts}
use gitseal.Base64
use gitseal.Age.{Age}
use gitseal.Crypto.Errors.{Error}
use gitseal.Crypto.Seal.{seal_with_level, seal_multi, seal_multi_v4}
use gitseal.Client.Bundle.{EnvSection, SealedBundle, or_nil, names}
use gitseal.Client.Author.Names.{NameDiff, diff_names, overlay, filter}

pub data AuthorError : Type 0 where
  no_env_recipient no_cluster : Text → AuthorError
  no_cluster_recipient : Text → Text → AuthorError
  seal_failed : Text → Text → Error → AuthorError
  other_project : ℤ → ℤ → AuthorError

-- the base64 text of a sealed value
abbrev pub encoded : Text → Text → Result Error Text → Result AuthorError Text
encoded env name (ok ct) = ok (Base64.encode ct)
encoded env name (err e) = err (seal_failed env name e)

-- an entry that is there is carried verbatim
abbrev pub carried_or : Option Text → Result AuthorError Text → Result AuthorError Text
carried_or none fresh = fresh
carried_or (some enc) fresh = ok enc

-- The loop over one env's values; `fresh` seals one.
unfoldable pub seal_entries :
    (Text → Text → Result AuthorError Text)
    → Dict Text Text
    → Dict Text Text
    → Result AuthorError (Dict Text Text)
seal_entries fresh prior [] = ok []
seal_entries fresh prior ((name, val) ∷ vals) = do
  enc ← carried_or (lookup name prior) (fresh name val)
  entries ← seal_entries fresh prior vals
  ok (insert name enc entries)

-- EnvSection{Entries: entries}
abbrev pub unsigned : Dict Text Text → EnvSection
unsigned entries = record { cluster = []; entries = some entries; sig = none }

-- prior[env], the zero section where it is absent
abbrev pub section_of : Option EnvSection → EnvSection
section_of none = record { cluster = []; entries = none; sig = none }
section_of (some sec) = sec

abbrev pub prior_entries : Dict Text EnvSection → Text → Dict Text Text
prior_entries prior env = or_nil (section_of (lookup env prior)).entries

-- The loop over the sorted envs; `seal_env` gives an env's entries.
unfoldable pub seal_envs :
    (Text → Result AuthorError (Dict Text Text))
    → Dict Text EnvSection
    → List Text
    → Dict Text EnvSection
    → Result AuthorError (Dict Text EnvSection × Dict Text NameDiff)
unfolding diff_names
seal_envs seal_env prior [] envs = ok (envs, [])
seal_envs seal_env prior (env ∷ rest) envs = do
  entries ← seal_env env
  (out, diffs) ← seal_envs seal_env prior rest (insert env (unsigned entries) envs)
  ok (
    out,
    insert env
        (diff_names (sort_texts (keys (prior_entries prior env))) (sort_texts (keys entries)))
        diffs,
  )

-- &SealedBundle{Kind: …, Version: …, Envs: envs}
abbrev pub per_env_bundle : Text → Dict Text EnvSection → SealedBundle
per_env_bundle version envs = record {
  kind = text "SealedBundle";
  version = version;
  project_id = pos 0;
  min_access_level = pos 0;
  recipient = [];
  entries = none;
  recipients = none;
  envs = some envs;
}

abbrev pub vals_of : Option (Dict Text Text) → Dict Text Text
vals_of none = []
vals_of (some vals) = vals

-- only a v4 prior seeds the carry-over
abbrev pub v4_prior : Option SealedBundle → Dict Text EnvSection
v4_prior none = []
v4_prior (some b) = if text_eq b.version (text "v4") then or_nil b.envs else []

-- the prior of SealBundleV2, which refuses another project's bundle
abbrev pub v2_prior : ℤ → Option SealedBundle → Result AuthorError (Dict Text EnvSection)
v2_prior project_id none = ok []
v2_prior project_id (some b) =
    if text_eq b.version (text "v2") || text_eq b.version (text "v3")
    then refuse_if (not (eqb_ℤ b.project_id (pos 0)) && not (eqb_ℤ b.project_id project_id))
        (other_project b.project_id project_id)
      >> ok (or_nil b.envs)
    else ok []

module _ (age : Age) (coins : Text → Text → ℕ) where
  -- One env of SealBundleV4.
  unfoldable pub seal_env_v4 :
      Text
      → Dict Text Text
      → ℤ
      → Dict Text (Dict Text Text)
      → Dict Text EnvSection
      → Text
      → Result AuthorError (Dict Text Text)
  unfolding seal_entries
  seal_env_v4 human env_recipient min_level resolved prior env = do
    recip ← require (lookup env env_recipient) (no_env_recipient env)
    seal_entries
        (λ name val.
          encoded env name
            (seal_multi_v4 age (coins env name) val (human ∷ recip ∷ []) human name min_level))
        (prior_entries prior env) (vals_of (lookup env resolved))

  -- SealBundleV4
  unfoldable pub seal_bundle_v4 :
      Option SealedBundle
      → Text
      → Dict Text Text
      → ℤ
      → Dict Text (Dict Text Text)
      → Result AuthorError (SealedBundle × Dict Text NameDiff)
  unfolding seal_envs seal_env_v4
  seal_bundle_v4 prior human env_recipient min_level resolved = do
    (envs, diffs) ←
        seal_envs (seal_env_v4 human env_recipient min_level resolved (v4_prior prior))
          (v4_prior prior) (sort_texts (keys resolved)) (v4_prior prior)
    ok (per_env_bundle (text "v4") envs, diffs)

  -- One env of SealBundleV2: a labelled section is carried only for the same cluster.
  unfoldable pub seal_env_v2 :
      Text
      → Dict Text Text
      → Dict Text Text
      → ℤ
      → ℤ
      → Dict Text (Dict Text Text)
      → Dict Text EnvSection
      → Text
      → Result AuthorError (Dict Text Text)
  unfolding seal_entries
  seal_env_v2 human clusters env_cluster project_id min_level resolved prior env = do
    cluster_name ← require (lookup env env_cluster) (no_cluster env)
    cluster_recip ← require (lookup cluster_name clusters) (no_cluster_recipient cluster_name env)
    let label = (section_of (lookup env prior)).cluster
    seal_entries
        (λ name val. encoded env name (
          seal_multi age (coins env name) val (human ∷ cluster_recip ∷ []) project_id name
            min_level))
        (if is_empty label || text_eq label cluster_name then prior_entries prior env else [])
        (vals_of (lookup env resolved))

  -- SealBundleV2
  unfoldable pub seal_bundle_v2 :
      Option SealedBundle
      → Text
      → Dict Text Text
      → Dict Text Text
      → ℤ
      → ℤ
      → Dict Text (Dict Text Text)
      → Result AuthorError (SealedBundle × Dict Text NameDiff)
  unfolding seal_envs seal_env_v2
  seal_bundle_v2 prior human clusters env_cluster project_id min_level resolved = do
    sections ← v2_prior project_id prior
    (envs, diffs) ←
        seal_envs (seal_env_v2 human clusters env_cluster project_id min_level resolved sections)
          sections (sort_texts (keys resolved)) sections
    ok (per_env_bundle (text "v3") envs, diffs)
