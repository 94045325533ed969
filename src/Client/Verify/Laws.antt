-- ===== src/Client/Verify/Laws.antt =====
-- verify.go: what a v3 bundle that passes has.
use gitseal.Prelude.{
  ℕ, ◌≡◌, refl, Bool, true, false, not, ◌&&◌, Option, none, some, List, [], ◌∷◌, ◌++◌, Text, text,
  text_eq, text_key, text_eq_iff, is_empty, all, eqb, arith, Result, ok, err,
}
use gitseal.Prelude.Dict.{Dict, lookup, keys}
use gitseal.Prelude.Sort.{sort_texts, all-sort_texts}
use gitseal.Age.{Age}
use gitseal.Crypto.Errors.{Error}
use gitseal.Crypto.Stanzas.{recipient_stanza_count}
use gitseal.Client.Bundle.{EnvSection, SealedBundle, or_nil, env_ciphertext}
use gitseal.Client.Config.{RepoConfig}
use gitseal.Client.Verify.{
  Violation, is_ok, one_if, missing_env, missing_envs, count_violation, entry_violation,
  entry_violations, entries_of, cluster_of, v3_sections, has_cluster_label, verify_bundle, is_none,
}

clean-append : (xs ys : List Violation) → is_empty (xs ++ ys) ≡ (is_empty xs && is_empty ys)
clean-append [] ys = refl
clean-append (x ∷ xs) ys = refl

clean-one_if : (b : Bool) (v : Violation) → is_empty (one_if b v) ≡ not b
clean-one_if true v = refl
clean-one_if false v = refl

clean-missing_envs :
    (d : Dict Text EnvSection) (envs : List Text)
    → is_empty (missing_envs d envs) ≡ all (λ env. not (is_none (lookup env d))) envs
unfolding missing_envs
clean-missing_envs d [] = refl
clean-missing_envs d (env ∷ envs) = rw (
  clean-append (one_if (is_none (lookup env d)) (missing_env env)) (missing_envs d envs),
  clean-one_if (is_none (lookup env d)) (missing_env env),
  clean-missing_envs d envs,
)

-- The entry decodes to an age file with exactly two recipient stanzas.
abbrev counts_two : Result Error ℕ → Bool
counts_two (err e) = false
counts_two (ok n) = eqb n 2

abbrev pub has_two_stanzas : Age → Option Text → Bool
has_two_stanzas age none = false
has_two_stanzas age (some ct) = counts_two (recipient_stanza_count age ct)

clean-count :
    (env name : Text) (m : Result Error ℕ) → is_empty (count_violation env name m) ≡ counts_two m
clean-count env name (err e) = refl
clean-count env name (ok n) = ground arith

clean-entry_violation :
    (age : Age) (env name : Text) (o : Option Text)
    → is_empty (entry_violation age env name o) ≡ has_two_stanzas age o
clean-entry_violation age env name none = refl
clean-entry_violation age env name (some ct) = clean-count env name (recipient_stanza_count age ct)

clean-entry_violations :
    (age : Age) (b : SealedBundle) (env : Text) (names : List Text)
    → is_empty (entry_violations age b env names)
      ≡ all (λ name. has_two_stanzas age (env_ciphertext b env name)) names
unfolding entry_violations
clean-entry_violations age b env [] = refl
clean-entry_violations age b env (name ∷ names) = rw (
  clean-append (entry_violation age env name (env_ciphertext b env name))
      (entry_violations age b env names),
  clean-entry_violation age env name (env_ciphertext b env name),
  clean-entry_violations age b env names,
)

-- All entries of the env's section have two stanzas.
abbrev pub entries_pass : Age → SealedBundle → Text → Bool
entries_pass age b env =
    all (λ name. has_two_stanzas age (env_ciphertext b env name))
      (keys (entries_of (lookup env (or_nil b.envs))))

-- The section has no label, and its entries pass.
abbrev pub v3_passes : Age → SealedBundle → Text → Bool
v3_passes age b env = is_empty (cluster_of (lookup env (or_nil b.envs))) && entries_pass age b env

clean-sorted_entries :
    (age : Age) (b : SealedBundle) (env : Text) (d : Dict Text Text)
    → is_empty (entry_violations age b env (sort_texts (keys d)))
      ≡ all (λ name. has_two_stanzas age (env_ciphertext b env name)) (keys d)
clean-sorted_entries age b env d = rw (
  clean-entry_violations age b env (sort_texts (keys d)),
  all-sort_texts (λ name. has_two_stanzas age (env_ciphertext b env name)) (keys d),
)

clean-v3_sections :
    (age : Age) (b : SealedBundle) (envs : List Text)
    → is_empty (v3_sections age b envs) ≡ all (v3_passes age b) envs
unfolding v3_sections
clean-v3_sections age b [] = refl
clean-v3_sections age b (env ∷ envs) =
    let sec = lookup env (or_nil b.envs) in
    rw
      (
        clean-append (one_if (not (is_empty (cluster_of sec))) (has_cluster_label env)) (
            entry_violations age b env (sort_texts (keys (entries_of sec)))
            ++ v3_sections age b envs),
        clean-append (entry_violations age b env (sort_texts (keys (entries_of sec))))
            (v3_sections age b envs),
        clean-one_if (not (is_empty (cluster_of sec))) (has_cluster_label env),
        clean-sorted_entries age b env (entries_of sec),
        clean-v3_sections age b envs,
      )
      (ground arith)

-- A v3 bundle passes exactly if it has each env that the policy declares, no section has a cluster label,
-- and each entry is an age file with exactly two recipient stanzas.
pub verify_bundle-v3 :
    (age : Age) (b : SealedBundle) (rc : RepoConfig) (strict : Bool)
    → b.version ≡ text "v3"
    → is_ok (verify_bundle age b rc strict) ≡ (
        all (λ env. not (is_none (lookup env (or_nil b.envs)))) (keys rc.env_cluster)
        && all (v3_passes age b) (keys (or_nil b.envs)))
unfolding verify_bundle
verify_bundle-v3 age b rc strict v =
    let is_v3 : text_eq b.version (text "v3") ≡ true = (text_eq_iff b.version (text "v3")).1 v in
    rw (
      is_v3,
      clean-append (missing_envs (or_nil b.envs) (sort_texts (keys rc.env_cluster)))
          (v3_sections age b (sort_texts (keys (or_nil b.envs)))),
      clean-missing_envs (or_nil b.envs) (sort_texts (keys rc.env_cluster)),
      clean-v3_sections age b (sort_texts (keys (or_nil b.envs))),
      all-sort_texts (λ env. not (is_none (lookup env (or_nil b.envs)))) (keys rc.env_cluster),
      all-sort_texts (v3_passes age b) (keys (or_nil b.envs)),
    )
