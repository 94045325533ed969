-- ===== src/Client/Migrate.antt =====
-- migrate_v3.go, migrate_v4.go and migrate_envrecip.go: from one bundle version, or set of recipients,
-- to the next. `b` is the bundle that LoadBundle read, and the result holds the one that is written.
pub mod Loops
pub mod Kept
use gitseal.Prelude.{
  ℕ, Bool, true, false, not, ◌&&◌, ◌||◌, Option, none, some, List, [], ◌∷◌, Text, text, text_key,
  text_eq, ℤ, pos, eqb_ℤ, is_empty, if◌then◌else◌, Result, ok, err, ◌>>=◌, ◌>>◌, refuse_if, require,
}
use gitseal.Prelude.Dict.{Dict, lookup, insert, keys}
use gitseal.Prelude.Sort.{sort_texts}
use gitseal.Base64
use gitseal.Age.{Age}
use gitseal.Crypto.Errors.{Error}
use gitseal.Crypto.Open.{embedded_project_id, unseal_verified, unseal_verified_by_key}
use gitseal.Crypto.Seal.{seal_multi_v4}
use gitseal.Client.Bundle.{
  EnvSection, EnvSectionSig, SealedBundle, or_nil, is_per_env_version, env_ciphertext,
}
use gitseal.Client.Sign.{SshSigner, with_sig, message, message_v4}

-- MigrateResult
pub record MigrateResult : Type 0 where
  pub fingerprint : Text
  pub envs_signed : List Text
  pub from_version : Text

pub data MigrateError : Type 0 where
  wrong_version : Text → MigrateError
  no_sections keys_required : MigrateError
  other_project : ℤ → ℤ → MigrateError
  sign_failed no_cluster no_env_recipient : Text → MigrateError
  no_cluster_recipient : Text → Text → MigrateError
  unreadable : Text → Text → MigrateError
  decrypt_failed reseal_failed : Text → Text → Error → MigrateError

-- the bundle's fields that a normalized version does not have are dropped
abbrev pub normalized : Text → Dict Text EnvSection → SealedBundle → SealedBundle
normalized version envs b = record {
  kind = b.kind;
  version = version;
  project_id = pos 0;
  min_access_level = pos 0;
  recipient = [];
  entries = none;
  recipients = none;
  envs = some envs;
}

abbrev pub migrated :
    Text → SshSigner → SealedBundle → Dict Text EnvSection → SealedBundle × MigrateResult
migrated version signer b envs = (
  normalized version envs b,
  record {
    fingerprint = signer.fingerprint;
    envs_signed = sort_texts (keys envs);
    from_version = b.version;
  },
)

-- One round of a migration's loop, over all sections.
unfoldable pub migrate_sections :
    (Text → EnvSection → Result MigrateError EnvSection)
    → Dict Text EnvSection
    → Result MigrateError (Dict Text EnvSection)
migrate_sections one [] = ok []
migrate_sections one ((env, sec) ∷ envs) = do
  out ← one env sec
  rest ← migrate_sections one envs
  ok ((env, out) ∷ rest)

abbrev pub failed_as {ℓ} : {E F A : Type ℓ} → (E → F) → Result E A → Result F A
failed_as f (ok a) = ok a
failed_as f (err e) = err (f e)

-- The loop over a section's sorted names: each entry is read, opened, and sealed again.
unfoldable pub reseal_entries :
    Text
    → (Text → Option Text)
    → (Text → Result Error (Text × ℤ))
    → (Text → Text → ℤ → Result Error Text)
    → List Text
    → Result MigrateError (Dict Text Text)
reseal_entries env read open_one seal_one [] = ok []
reseal_entries env read open_one seal_one (name ∷ names) = do
  ct ← require (read name) (unreadable env name)
  (pt, level) ← failed_as (decrypt_failed env name) (open_one ct)
  nct ← failed_as (reseal_failed env name) (seal_one name pt level)
  rest ← reseal_entries env read open_one seal_one names
  ok (insert name (Base64.encode nct) rest)

-- EnvSection{Entries: newEntries, Sig: …}
abbrev pub resealed_section : Dict Text Text → EnvSection
resealed_section entries = record { cluster = []; entries = some entries; sig = none }

-- decryptForMigrate
unfoldable pub decrypt_for_migrate : Age → Text → Text → ℤ → Result Error (Text × ℤ)
decrypt_for_migrate age ct human_identity v2_project_id =
    if not (eqb_ℤ v2_project_id (pos 0))
    then (unseal_verified age ct human_identity v2_project_id).0
    else (embedded_project_id age ct human_identity >>= λ embedded.
        (unseal_verified age ct human_identity embedded).0)

-- One entry sealed again, to the project's key and another recipient.
abbrev pub reseal_v4 :
    Age → (Text → Text → ℕ) → Text → Text → Text → Text → Text → ℤ → Result Error Text
reseal_v4 age coins owner recip env name pt level =
    seal_multi_v4 age (coins env name) pt (owner ∷ recip ∷ []) owner name level

module _ (sha256 : Text → Text) where
  -- the section is kept but for its cluster label, and signed
  unfoldable pub migrate_section_v3 :
      ℤ → SshSigner → Text → EnvSection → Result MigrateError EnvSection
  migrate_section_v3 project_id signer env sec = do
    let bare = record sec { cluster = [] }
    sig ← require (signer.sign (message sha256 project_id env bare)) (sign_failed env)
    ok (with_sig bare signer.fingerprint sig)

  -- MigrateBundleToV3
  unfoldable pub migrate_bundle_to_v3 :
      SealedBundle → ℤ → SshSigner → Result MigrateError (SealedBundle × MigrateResult)
  unfolding migrate_sections migrate_section_v3
  migrate_bundle_to_v3 b project_id signer = do
    refuse_if (not (text_eq b.version (text "v2") || text_eq b.version (text "v3")))
        (wrong_version b.version)
    refuse_if (is_empty (or_nil b.envs)) no_sections
    refuse_if
        (text_eq b.version (text "v2")
          && (not (eqb_ℤ b.project_id (pos 0)) && not (eqb_ℤ b.project_id project_id)))
        (other_project b.project_id project_id)
    envs ← migrate_sections (migrate_section_v3 project_id signer) (or_nil b.envs)
    ok (migrated (text "v3") signer b envs)

  module _ (age : Age) (coins : Text → Text → ℕ) where
    -- What follows once a section's recipient is known.
    unfoldable pub reseal_section :
        SealedBundle
        → Text
        → Text
        → SshSigner
        → (Text → Result Error (Text × ℤ))
        → Text
        → EnvSection
        → Result MigrateError EnvSection
    unfolding reseal_entries
    reseal_section b owner recip signer open_one env sec = do
      entries ←
          reseal_entries env (env_ciphertext b env) open_one (reseal_v4 age coins owner recip env)
            (sort_texts (keys (or_nil sec.entries)))
      sig ←
          require (signer.sign (message_v4 sha256 owner env (resealed_section entries)))
            (sign_failed env)
      ok (with_sig (resealed_section entries) signer.fingerprint sig)

    -- One section of MigrateBundleToV4.
    unfoldable pub migrate_section_v4 :
        SealedBundle
        → Text
        → Text
        → Dict Text Text
        → Dict Text Text
        → SshSigner
        → Text
        → EnvSection
        → Result MigrateError EnvSection
    unfolding reseal_section decrypt_for_migrate
    migrate_section_v4 b human_identity owner clusters env_cluster signer env sec = do
      cluster_name ← require (lookup env env_cluster) (no_cluster env)
      recip ← require (lookup cluster_name clusters) (no_cluster_recipient cluster_name env)
      reseal_section b owner recip signer
          (λ ct. decrypt_for_migrate age ct human_identity b.project_id) env sec

    -- MigrateBundleToV4
    unfoldable pub migrate_bundle_to_v4 :
        SealedBundle
        → Text
        → Text
        → Dict Text Text
        → Dict Text Text
        → SshSigner
        → Result MigrateError (SealedBundle × MigrateResult)
    unfolding migrate_sections migrate_section_v4
    migrate_bundle_to_v4 b human_identity owner clusters env_cluster signer = do
      refuse_if (not (is_per_env_version b.version)) (wrong_version b.version)
      refuse_if (is_empty (or_nil b.envs)) no_sections
      refuse_if (is_empty owner || is_empty human_identity) keys_required
      envs ←
          migrate_sections (migrate_section_v4 b human_identity owner clusters env_cluster signer)
            (or_nil b.envs)
      ok (migrated (text "v4") signer b envs)

    -- One section of ReSealToEnvRecipients.
    unfoldable pub reseal_section_env :
        SealedBundle
        → Text
        → Text
        → Dict Text Text
        → SshSigner
        → Text
        → EnvSection
        → Result MigrateError EnvSection
    unfolding reseal_section
    reseal_section_env b human_identity owner env_recipients signer env sec = do
      recip ← require (lookup env env_recipients) (no_env_recipient env)
      refuse_if (is_empty recip) (no_env_recipient env)
      reseal_section b owner recip signer
          (λ ct. (unseal_verified_by_key age ct human_identity owner).0) env sec

    -- ReSealToEnvRecipients
    unfoldable pub re_seal_to_env_recipients :
        SealedBundle
        → Text
        → Text
        → Dict Text Text
        → SshSigner
        → Result MigrateError (SealedBundle × MigrateResult)
    unfolding migrate_sections reseal_section_env
    re_seal_to_env_recipients b human_identity owner env_recipients signer = do
      refuse_if (not (text_eq b.version (text "v4"))) (wrong_version b.version)
      refuse_if (is_empty owner || is_empty human_identity) keys_required
      envs ←
          migrate_sections (reseal_section_env b human_identity owner env_recipients signer)
            (or_nil b.envs)
      ok (
        record b { envs = some envs },
        record {
          fingerprint = signer.fingerprint;
          envs_signed = sort_texts (keys envs);
          from_version = b.version;
        },
      )
