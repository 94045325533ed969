-- ===== src/Client/Verify.antt =====
-- verify.go: the audit of a bundle without a key.
pub mod Laws
use gitseal.Prelude.{
  ℕ, ◌≡◌, Bool, true, false, not, ◌&&◌, Option, none, some, List, [], ◌∷◌, ◌++◌, Text, text,
  text_eq, text_key, is_empty, eqb, if◌then◌else◌, Result, ok, err,
}
use gitseal.Prelude.Dict.{Dict, lookup, keys}
use gitseal.Prelude.Sort.{sort_texts}
use gitseal.Age.{Age}
use gitseal.Crypto.Errors.{Error}
use gitseal.Crypto.Stanzas.{recipient_stanza_count}
use gitseal.Client.Bundle.{EnvSection, SealedBundle, or_nil, env_ciphertext}
use gitseal.Client.Config.{RepoConfig}

-- A violation or a warning, for its message.
pub data Violation : Type 0 where
  missing_env has_cluster_label unmapped_env wrong_cluster cluster_absent cluster_mismatch :
      Text → Violation
  no_human human_mismatch : Violation
  unreadable not_age : Text → Text → Violation
  wrong_stanzas : Text → Text → ℕ → Violation
  not_migrated : Text → Violation

-- VerifyResult
pub record VerifyResult : Type 0 where
  pub violations : List Violation
  pub warnings : List Violation

abbrev pub violated : List Violation → VerifyResult
violated vs = record { violations = vs; warnings = [] }

-- VerifyResult.OK
abbrev pub is_ok : VerifyResult → Bool
is_ok r = is_empty r.violations

-- sortedKeys
abbrev pub sorted_keys {ℓ} : {V : Type ℓ} → Dict Text V → List Text
sorted_keys d = sort_texts (keys d)

abbrev pub one_if : Bool → Violation → List Violation
one_if true v = v ∷ []
one_if false v = []

abbrev pub is_none {ℓ} : {A : Type ℓ} → Option A → Bool
is_none none = true
is_none (some _) = false

-- (1) every declared env is there
unfoldable pub missing_envs : Dict Text EnvSection → List Text → List Violation
missing_envs sections [] = []
missing_envs sections (env ∷ envs) =
    one_if (is_none (lookup env sections)) (missing_env env) ++ missing_envs sections envs

-- (3) an entry has exactly two recipient stanzas
abbrev pub count_violation : Text → Text → Result Error ℕ → List Violation
count_violation env name (err e) = not_age env name ∷ []
count_violation env name (ok n) = one_if (not (eqb n 2)) (wrong_stanzas env name n)

abbrev pub entry_violation : Age → Text → Text → Option Text → List Violation
entry_violation age env name none = unreadable env name ∷ []
entry_violation age env name (some ct) = count_violation env name (recipient_stanza_count age ct)

unfoldable pub entry_violations : Age → SealedBundle → Text → List Text → List Violation
entry_violations age b env [] = []
entry_violations age b env (name ∷ names) =
    entry_violation age env name (env_ciphertext b env name) ++ entry_violations age b env names

abbrev pub entries_of : Option EnvSection → Dict Text Text
entries_of none = []
entries_of (some sec) = or_nil sec.entries

abbrev pub cluster_of : Option EnvSection → Text
cluster_of none = []
cluster_of (some sec) = sec.cluster

unfoldable pub v3_sections : Age → SealedBundle → List Text → List Violation
unfolding entry_violations
v3_sections age b [] = []
v3_sections age b (env ∷ envs) =
    let sec = lookup env (or_nil b.envs) in
    one_if (not (is_empty (cluster_of sec))) (has_cluster_label env)
    ++ (entry_violations age b env (sorted_keys (entries_of sec)) ++ v3_sections age b envs)

-- (4a) the human recipient
abbrev pub human_violation : Text → Option Text → List Violation
human_violation want none = no_human ∷ []
human_violation want (some h) = one_if (not (is_empty want) && not (text_eq h want)) human_mismatch

-- (2) the section's cluster
abbrev pub mapping_violation : Text → Text → Option Text → List Violation
mapping_violation env cluster none = unmapped_env env ∷ []
mapping_violation env cluster (some want) = one_if (not (text_eq cluster want)) (wrong_cluster env)

-- (4b) that cluster's recipient
abbrev pub recipient_differs : Text → Option Text → Bool
recipient_differs r none = false
recipient_differs r (some want) = not (text_eq r want)

abbrev pub registered_cluster : Text → Option Text → Option Text → List Violation
registered_cluster env none want = cluster_absent env ∷ []
registered_cluster env (some r) want = one_if (recipient_differs r want) (cluster_mismatch env)

abbrev pub cluster_violation : SealedBundle → RepoConfig → Text → Text → List Violation
cluster_violation b rc env cluster =
    if is_empty cluster
    then []
    else registered_cluster env (lookup cluster (or_nil b.recipients)) (lookup cluster rc.clusters)

unfoldable pub v2_sections : Age → SealedBundle → RepoConfig → List Text → List Violation
unfolding entry_violations
v2_sections age b rc [] = []
v2_sections age b rc (env ∷ envs) =
    let sec = lookup env (or_nil b.envs) in
    mapping_violation env (cluster_of sec) (lookup env rc.env_cluster)
    ++ (cluster_violation b rc env (cluster_of sec)
        ++ (entry_violations age b env (sorted_keys (entries_of sec)) ++ v2_sections age b rc envs))

abbrev pub unmigrated : SealedBundle → Bool → VerifyResult
unmigrated b strict =
    if strict
    then record { violations = not_migrated b.version ∷ []; warnings = [] }
    else record { violations = []; warnings = not_migrated b.version ∷ [] }

-- VerifyBundle
unfoldable pub verify_bundle : Age → SealedBundle → RepoConfig → Bool → VerifyResult
unfolding v3_sections v2_sections missing_envs
verify_bundle age b rc strict =
    if text_eq b.version (text "v3")
    then violated (
        missing_envs (or_nil b.envs) (sorted_keys rc.env_cluster)
        ++ v3_sections age b (sorted_keys (or_nil b.envs)))
    else if not (text_eq b.version (text "v2"))
    then unmigrated b strict
    else violated (
        human_violation rc.recipient (lookup (text "human") (or_nil b.recipients))
        ++ (missing_envs (or_nil b.envs) (sorted_keys rc.env_cluster)
            ++ v2_sections age b rc (sorted_keys (or_nil b.envs))))
