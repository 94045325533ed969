-- ===== src/Client/Migrate/Kept.antt =====
-- migrate_v3.go, migrate_v4.go and migrate_envrecip.go: what a migration keeps.
use gitseal.Prelude.{
  ℕ, ◌≡◌, refl, false, not, ◌&&◌, ◌||◌, some, [], ◌∷◌, Text, text, text_key, text_eq, ℤ, pos, eqb_ℤ,
  is_empty, Result, ok, ap, sym, ◌∙◌, >>=-eq-ok, require-bind-eq-ok, refuse_if-eq-ok, ok-inj,
}
use gitseal.Prelude.Dict.{Dict, lookup, keys}
use gitseal.Prelude.Sort.{sort_texts, any-sort_texts}
use gitseal.Age.{Age}
use gitseal.Crypto.Errors.{Error}
use gitseal.Crypto.Open.{unseal_verified_by_key}
use gitseal.Crypto.Seal.{seal_multi_v4}
use gitseal.Client.Bundle.{EnvSection, SealedBundle, or_nil, is_per_env_version, env_ciphertext}
use gitseal.Client.Author.Reseal.{is_there, any-keys}
use gitseal.Client.Sign.{SshSigner, with_sig, message, message_v4}
use gitseal.Client.Migrate.{
  MigrateResult, wrong_version, no_sections, keys_required, other_project, sign_failed, no_cluster,
  no_env_recipient, no_cluster_recipient, normalized, migrate_sections, reseal_entries,
  resealed_section, migrate_section_v3, migrate_bundle_to_v3, decrypt_for_migrate, reseal_v4,
  reseal_section, migrate_section_v4, migrate_bundle_to_v4, reseal_section_env,
  re_seal_to_env_recipients,
}
use gitseal.Client.Migrate.Loops.{ResealedOf, reseal_entries-ResealedOf, migrate_sections-lookup}

module _ (sha256 : Text → Text) where
  -- Migrating a v2 or v3 bundle to v3 keeps the entries of every section as they were, drops the
  -- cluster label, and signs the section over its canonical bytes for the given project. A v2 bundle
  -- with a project id of its own migrates only for that id.
  pub migrate_bundle_to_v3-kept :
      (b out : SealedBundle) (res : MigrateResult) (project_id : ℤ) (signer : SshSigner)
      (env : Text) (sec : EnvSection)
      → migrate_bundle_to_v3 sha256 b project_id signer ≡ ok (out, res)
      → lookup env (or_nil b.envs) ≡ some sec
      → (out.version ≡ text "v3")
        × ((text_eq b.version (text "v2")
              && (not (eqb_ℤ b.project_id (pos 0)) && not (eqb_ℤ b.project_id project_id)))
            ≡ false)
        × ((sig : Text) × (signer.sign (message sha256 project_id env (record sec { cluster = [] }))
              ≡ some sig)
            × (lookup env (or_nil out.envs)
                ≡ some (with_sig (record sec { cluster = [] }) signer.fingerprint sig)))
  unfolding migrate_bundle_to_v3 migrate_section_v3
  migrate_bundle_to_v3-kept b out res project_id signer env sec e found =
      let (_, e₁) =
        refuse_if-eq-ok (not (text_eq b.version (text "v2") || text_eq b.version (text "v3")))
          (wrong_version b.version) _ _ e in
      let (_, e₂) = refuse_if-eq-ok (is_empty (or_nil b.envs)) no_sections _ _ e₁ in
      let (guard, e₃) =
        refuse_if-eq-ok
          (text_eq b.version (text "v2")
            && (not (eqb_ℤ b.project_id (pos 0)) && not (eqb_ℤ b.project_id project_id)))
          (other_project b.project_id project_id) _ _ e₂ in
      let (envs, walked, e₄) =
        >>=-eq-ok (migrate_sections (migrate_section_v3 sha256 project_id signer) (or_nil b.envs)) _
          e₃ in
      let (new, made, at) =
        migrate_sections-lookup (migrate_section_v3 sha256 project_id signer) (or_nil b.envs) envs
          env sec walked found in
      let (sig, signed, e₅) =
        require-bind-eq-ok
          (signer.sign (message sha256 project_id env (record sec { cluster = [] })))
          (sign_failed env) _ _ made in
      let same : normalized (text "v3") envs b ≡ out =
        ap (λ (p : SealedBundle × MigrateResult). p.0) (ok-inj e₄) in
      rw (sym same) (refl, guard, (sig, signed, at ∙ ap some (sym (ok-inj e₅))))

  module _ (age : Age) (coins : Text → Text → ℕ) where
    -- A section that was sealed again: signed over the new entries, and under each name that it had
    -- the plaintext and level that were opened, sealed to the owner and the new recipient.
    abbrev pub ResealedSection :
        SealedBundle
        → Text
        → Text
        → SshSigner
        → (Text → Result Error (Text × ℤ))
        → Text
        → EnvSection
        → EnvSection
        → Type 0
    ResealedSection b owner recip signer open_one env sec new =
        (entries : Dict Text Text) × (sig : Text) × (signer.sign
            (message_v4 sha256 owner env (resealed_section entries))
          ≡ some sig)
        × (new ≡ with_sig (resealed_section entries) signer.fingerprint sig)
        × ((name : Text)
            → ResealedOf (env_ciphertext b env) open_one
                (λ n pt level.
                  seal_multi_v4 age (coins env n) pt (owner ∷ recip ∷ []) owner n level)
                name (is_there (lookup name (or_nil sec.entries))) (lookup name entries))

    reseal_section-eq-ok :
        (b : SealedBundle) (owner recip : Text) (signer : SshSigner)
        (open_one : Text → Result Error (Text × ℤ)) (env : Text) (sec new : EnvSection)
        → reseal_section sha256 age coins b owner recip signer open_one env sec ≡ ok new
        → ResealedSection b owner recip signer open_one env sec new
    unfolding reseal_section
    reseal_section-eq-ok b owner recip signer open_one env sec new e =
        let names = sort_texts (keys (or_nil sec.entries)) in
        let (entries, walked, e₁) =
          >>=-eq-ok
            (reseal_entries env (env_ciphertext b env) open_one
              (reseal_v4 age coins owner recip env) names)
            _ e in
        let (sig, signed, e₂) =
          require-bind-eq-ok (signer.sign (message_v4 sha256 owner env (resealed_section entries)))
            (sign_failed env) _ _ e₁ in
        (
          entries,
          sig,
          signed,
          sym (ok-inj e₂),
          λ name.
              rw
                (
                  any-sort_texts (text_eq name) (keys (or_nil sec.entries)),
                  any-keys name (or_nil sec.entries),
                )
                at
                (reseal_entries-ResealedOf env (env_ciphertext b env) open_one
                  (reseal_v4 age coins owner recip env) names entries name walked),
        )

    -- Migrating a bundle to v4 opens every entry with the human identity and seals exactly the opened
    -- plaintext with its own level again, to the project's key and the recipient of the env's
    -- cluster; no name is lost and none is added, and the section is signed over its new entries.
    pub migrate_bundle_to_v4-kept :
        (b out : SealedBundle) (res : MigrateResult) (human_identity owner : Text)
        (clusters env_cluster : Dict Text Text) (signer : SshSigner) (env : Text) (sec : EnvSection)
        → migrate_bundle_to_v4 sha256 age coins b human_identity owner clusters env_cluster signer
          ≡ ok (out, res)
        → lookup env (or_nil b.envs) ≡ some sec
        → (out.version ≡ text "v4")
          × ((cluster recip : Text) × (new : EnvSection) × (lookup env env_cluster ≡ some cluster)
              × (lookup cluster clusters ≡ some recip)
              × (lookup env (or_nil out.envs) ≡ some new)
              × ResealedSection b owner recip signer
                  (λ ct. decrypt_for_migrate age ct human_identity b.project_id)
                  env
                  sec
                  new)
    unfolding migrate_bundle_to_v4 migrate_section_v4
    migrate_bundle_to_v4-kept b out res human_identity owner clusters env_cluster signer env sec e
          found =
        let (_, e₁) =
          refuse_if-eq-ok (not (is_per_env_version b.version)) (wrong_version b.version) _ _ e in
        let (_, e₂) = refuse_if-eq-ok (is_empty (or_nil b.envs)) no_sections _ _ e₁ in
        let (_, e₃) =
          refuse_if-eq-ok (is_empty owner || is_empty human_identity) keys_required _ _ e₂ in
        let one =
          migrate_section_v4 sha256 age coins b human_identity owner clusters env_cluster signer in
        let (envs, walked, e₄) = >>=-eq-ok (migrate_sections one (or_nil b.envs)) _ e₃ in
        let (new, made, at) =
          migrate_sections-lookup one (or_nil b.envs) envs env sec walked found in
        let (cluster, c, m₁) =
          require-bind-eq-ok (lookup env env_cluster) (no_cluster env) _ _ made in
        let (recip, r, m₂) =
          require-bind-eq-ok (lookup cluster clusters) (no_cluster_recipient cluster env) _ _ m₁ in
        let same : normalized (text "v4") envs b ≡ out =
          ap (λ (p : SealedBundle × MigrateResult). p.0) (ok-inj e₄) in
        rw (sym same) (
          refl,
          (
            cluster,
            recip,
            new,
            c,
            r,
            at,
            reseal_section-eq-ok b owner recip signer
                (λ ct. decrypt_for_migrate age ct human_identity b.project_id) env sec new m₂,
          ),
        )

    -- Where a v4 bundle is sealed again for the envs' own recipients, every entry of a section was opened
    -- for the project's key, and exactly the opened plaintext is sealed with its own level, to the
    -- project's key and the recipient of the env, which is given and not empty; no name is lost and none
    -- is added, the version stays, and the section is signed over its new entries.
    pub re_seal_to_env_recipients-kept :
        (b out : SealedBundle) (res : MigrateResult) (human_identity owner : Text)
        (env_recipients : Dict Text Text) (signer : SshSigner) (env : Text) (sec : EnvSection)
        → re_seal_to_env_recipients sha256 age coins b human_identity owner env_recipients signer
          ≡ ok (out, res)
        → lookup env (or_nil b.envs) ≡ some sec
        → (out.version ≡ b.version)
          × ((recip : Text) × (new : EnvSection) × (lookup env env_recipients ≡ some recip)
              × (is_empty recip ≡ false)
              × (lookup env (or_nil out.envs) ≡ some new)
              × ResealedSection b owner recip signer
                  (λ ct. (unseal_verified_by_key age ct human_identity owner).0)
                  env
                  sec
                  new)
    unfolding re_seal_to_env_recipients reseal_section_env
    re_seal_to_env_recipients-kept b out res human_identity owner env_recipients signer env sec e
          found =
        let (_, e₁) =
          refuse_if-eq-ok (not (text_eq b.version (text "v4"))) (wrong_version b.version) _ _ e in
        let (_, e₂) =
          refuse_if-eq-ok (is_empty owner || is_empty human_identity) keys_required _ _ e₁ in
        let one =
          reseal_section_env sha256 age coins b human_identity owner env_recipients signer in
        let (envs, walked, e₃) = >>=-eq-ok (migrate_sections one (or_nil b.envs)) _ e₂ in
        let (new, made, at) =
          migrate_sections-lookup one (or_nil b.envs) envs env sec walked found in
        let (recip, r, m₁) =
          require-bind-eq-ok (lookup env env_recipients) (no_env_recipient env) _ _ made in
        let (filled, m₂) = refuse_if-eq-ok (is_empty recip) (no_env_recipient env) _ _ m₁ in
        let same : record b { envs = some envs } ≡ out =
          ap (λ (p : SealedBundle × MigrateResult). p.0) (ok-inj e₃) in
        rw (sym same) (
          refl,
          (
            recip,
            new,
            r,
            filled,
            at,
            reseal_section-eq-ok b owner recip signer
                (λ ct. (unseal_verified_by_key age ct human_identity owner).0) env sec new m₂,
          ),
        )
