-- ===== src/Client/Authz/Command/Signatures.antt =====
-- cmd/sealdctl/authz.go: what the signature step finds of each changed env at head.
use mathlib.Core.Path.{subst}
use gitseal.Prelude.{
  ℕ, ◌≡◌, refl, Bool, true, false, not, Option, none, some, List, [], ◌∷◌, Text, text, text_key,
  text_eq, text_eq_iff, ℤ, any, eqb, if◌then◌else◌, Result, ok, err, arith, Memᴰ, refuse_if,
  Bool-cases, inl, inr,
}
use gitseal.Prelude.Dict.{Dict, lookup, keys}
use gitseal.Prelude.Sort.{sort_texts, any-sort_texts}
use gitseal.Client.Bundle.{EnvSection, SealedBundle, ParseError, or_nil, parse_bundle}
use gitseal.Client.Config.{RepoConfig, min_level_for_env}
use gitseal.Client.Author.Reseal.{is_there, any-keys}
use gitseal.Client.Authz.Diff.{EntryChange}
use gitseal.Client.Authz.Verdict.{required_level, min_level_for_env_lem}
use gitseal.Client.Authz.Sig.{
  canonical_section_bytes, canonical_section_bytes_v4, verify_section_authz,
  verify_section_authz_v4,
}
use gitseal.Client.Authz.Sig.Laws.{
  SignedBy, verify_section_authz-SignedBy, verify_section_authz_v4-SignedBy,
}
use gitseal.Client.Authz.Scan.{Shown, failed, absent, content}
use gitseal.Client.Authz.Command.{
  Calls, sections_denied, or_none, changed_envs_by_file, one_unless, section_check, env_violation,
  count_envs, count_shown, count_parsed, count_files, check_signatures,
}
use gitseal.Client.Authz.Command.Recorded.{changed_envs_by_file-IsRecorded}

module _ (w : Calls) (rc : RepoConfig) (project_id : ℤ) where
  count_envs-zero :
      (b : SealedBundle) (envs : List Text) (env : Text)
      → count_envs w rc project_id b envs ≡ 0
      → any (text_eq env) envs ≡ true
      → env_violation w rc project_id b env (lookup env (or_nil b.envs)) ≡ 0
  unfolding count_envs
  count_envs-zero b [] env z m = cc
  count_envs-zero b (v ∷ envs) env z m = elim (Bool-cases (text_eq env v)) [
    | inl same ↦ rw ((text_eq_iff env v).0 same) (omega arith)
    | inr other ↦ count_envs-zero b envs env (omega arith) (ground arith)
  ]

  count_files-zero :
      (head f : Text) (by_file : Dict Text (List Text)) (fs : List Text)
      → count_files w rc project_id head by_file fs ≡ 0
      → any (text_eq f) fs ≡ true
      → count_shown w rc project_id (or_none (lookup f by_file)) (w.show head f) ≡ 0
  unfolding count_files
  count_files-zero head f by_file [] z m = cc
  count_files-zero head f by_file (v ∷ fs) z m = elim (Bool-cases (text_eq f v)) [
    | inl same ↦ rw ((text_eq_iff f v).0 same) (omega arith)
    | inr other ↦ count_files-zero head f by_file fs (omega arith) (ground arith)
  ]

  -- The message that a section's signature is over.
  abbrev pub signed_message : SealedBundle → Text → EnvSection → Text
  signed_message b env sec =
      if text_eq b.version (text "v4")
      then canonical_section_bytes_v4 w.sha256 rc.recipient env (or_nil sec.entries)
      else canonical_section_bytes w.sha256 project_id env (or_nil sec.entries)

  section_check-SignedBy :
      (b : SealedBundle) (env : Text) (sec : EnvSection)
      → one_unless (section_check w rc project_id b env sec) ≡ 0
      → SignedBy (signed_message b env sec) sec (min_level_for_env rc env) (w.resolver project_id)
  section_check-SignedBy b env sec z = by_version (text_eq b.version (text "v4")) z
    where
      passed : {E : Type 0} (r : Result E (Unit {0})) → one_unless r ≡ 0 → r ≡ ok tt
      passed (ok u) e = refl
      passed (err x) e = absurd (omega arith)

      by_version :
          (v4 : Bool)
          → one_unless (
              if v4
              then verify_section_authz_v4 w.sha256 rc.recipient env sec
                  (min_level_for_env rc env)
                  (w.resolver project_id)
              else verify_section_authz w.sha256 project_id env sec
                  (min_level_for_env rc env)
                  (w.resolver project_id))
            ≡ 0
          → SignedBy
              (if v4
                then canonical_section_bytes_v4 w.sha256 rc.recipient env (or_nil sec.entries)
                else canonical_section_bytes w.sha256 project_id env (or_nil sec.entries))
              sec
              (min_level_for_env rc env)
              (w.resolver project_id)
      by_version true e =
          verify_section_authz_v4-SignedBy w.sha256 rc.recipient env sec (min_level_for_env rc env)
            (w.resolver project_id) (passed _ e)
      by_version false e =
          verify_section_authz-SignedBy w.sha256 project_id env sec (min_level_for_env rc env)
            (w.resolver project_id) (passed _ e)

  -- What the signature step finds of an env in a file at head: a file that git does not show or that
  -- is gone, a file that parses and has no section of the env, or one whose section is signed.
  pub data CheckedAtHead (env : Text) : Shown → Type 0 where
    not_shown : CheckedAtHead env failed
    file_removed : CheckedAtHead env absent
    section_removed :
        (data_bytes : Text) (b : SealedBundle)
        → parse_bundle w.unmarshal data_bytes ≡ ok b
        → lookup env (or_nil b.envs) ≡ none
        → CheckedAtHead env (content data_bytes)
    section_signed :
        (data_bytes : Text) (b : SealedBundle) (sec : EnvSection)
        → parse_bundle w.unmarshal data_bytes ≡ ok b
        → lookup env (or_nil b.envs) ≡ some sec
        → SignedBy (signed_message b env sec) sec (required_level rc env) (w.resolver project_id)
        → CheckedAtHead env (content data_bytes)

  env_violation-CheckedAtHead :
      (env data_bytes : Text) (b : SealedBundle) (o : Option EnvSection)
      → parse_bundle w.unmarshal data_bytes ≡ ok b
      → lookup env (or_nil b.envs) ≡ o
      → env_violation w rc project_id b env o ≡ 0
      → CheckedAtHead env (content data_bytes)
  env_violation-CheckedAtHead env data_bytes b none p l z = section_removed data_bytes b p l
  env_violation-CheckedAtHead env data_bytes b (some sec) p l z =
      section_signed data_bytes b sec p l (
        subst (λ n. SignedBy (signed_message b env sec) sec n (w.resolver project_id))
          (min_level_for_env_lem rc env) (section_check-SignedBy b env sec z))

  count_shown-CheckedAtHead :
      (envs : List Text) (env : Text) (shown : Shown)
      → count_shown w rc project_id envs shown ≡ 0
      → any (text_eq env) envs ≡ true
      → CheckedAtHead env shown
  count_shown-CheckedAtHead envs env failed z m = not_shown
  count_shown-CheckedAtHead envs env absent z m = file_removed
  count_shown-CheckedAtHead envs env (content data_bytes) z m =
      by_parse (parse_bundle w.unmarshal data_bytes) refl z
    where
      by_parse :
          (r : Result ParseError SealedBundle)
          → parse_bundle w.unmarshal data_bytes ≡ r
          → count_parsed w rc project_id envs r ≡ 0
          → CheckedAtHead env (content data_bytes)
      by_parse (err e) p n = absurd (omega arith)
      by_parse (ok b) p n =
          env_violation-CheckedAtHead env data_bytes b (lookup env (or_nil b.envs)) p refl
            (count_envs-zero b envs env n m)

  pub check_signatures-CheckedAtHead :
      (head : Text) (changes : List EntryChange) (c : EntryChange)
      → check_signatures w rc project_id head changes ≡ ok tt
      → Memᴰ c changes
      → CheckedAtHead c.env (w.show head c.file)
  unfolding check_signatures
  check_signatures-CheckedAtHead head changes c e m =
      let by_file = changed_envs_by_file changes [] in
      let recorded = changed_envs_by_file-IsRecorded c changes [] m in
      let zero : count_files w rc project_id head by_file (sort_texts (keys by_file)) ≡ 0 =
        no_violations (count_files w rc project_id head by_file (sort_texts (keys by_file))) e in
      let file_zero = count_files-zero head c.file by_file (sort_texts (keys by_file)) zero (
        rw (any-sort_texts (text_eq c.file) (keys by_file), any-keys c.file by_file)
          (has_file c.env (lookup c.file by_file) recorded)) in
      count_shown-CheckedAtHead (or_none (lookup c.file by_file)) c.env (w.show head c.file)
        file_zero recorded
    where
      no_violations : (n : ℕ) → refuse_if (not (eqb n 0)) (sections_denied n) ≡ ok tt → n ≡ 0
      no_violations n h = ground arith

      has_file :
          (env : Text) (o : Option (List Text))
          → any (text_eq env) (or_none o) ≡ true
          → is_there o ≡ true
      has_file env none h = cc
      has_file env (some l) h = refl
