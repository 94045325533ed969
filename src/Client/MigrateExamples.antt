-- ===== src/Client/MigrateExamples.antt =====
-- Migrating a bundle of one entry through the versions, over the toy age.
use gitseal.Prelude.{
  ℕ, ◌≡◌, refl, false, not, ◌&&◌, Option, none, some, [], ◌∷◌, Text, text, text_key, text_eq,
  strip_prefix, pos, eqb_ℤ, ok, is_empty,
}
use gitseal.Prelude.Dict.{Dict, lookup, insert, keys}
use gitseal.Prelude.Sort.{sort_texts, insert_sorted}
use gitseal.Strconv.{
  cut_blank_line, split_lines, trim_space, trim_left, parse_int, parse_digits, format_int, format_ℕ,
}
use gitseal.Base64.{encode, decode, encode_sextet, decode_sextet, decode_groups, strip_breaks}
use gitseal.Age.{toy}
use gitseal.Age.Toy.{parse, encrypt, decrypt, frame, mark, unframe}
use gitseal.Crypto.Headers.{
  parse_headers, parse_headers_v4, read_lines, read_line, read_case, parse_level_line,
}
use gitseal.Crypto.Open.{
  unseal_verified, open_verified, unseal_verified_by_key, open_verified_by_key, decrypt_envelope,
  zeroize,
}
use gitseal.Crypto.Seal.{envelope, envelope_v4, seal_multi_v4, seal_envelope_v4, parse_recipients}
use gitseal.Client.Bundle.{SealedBundle, EnvSection, or_nil, is_per_env_version, env_ciphertext}
use gitseal.Client.Author.{per_env_bundle}
use gitseal.Client.Sign.{SshSigner, message, with_sig}
use gitseal.Client.Migrate.{
  MigrateResult, migrate_bundle_to_v3, migrate_bundle_to_v4, migrate_sections, migrate_section_v3,
  migrate_section_v4, reseal_section, reseal_entries, decrypt_for_migrate, migrated,
  re_seal_to_env_recipients, reseal_section_env,
}
use gitseal.Client.Migrate.Kept.{
  ResealedSection, migrate_bundle_to_v3-kept, migrate_bundle_to_v4-kept,
  re_seal_to_env_recipients-kept,
}

abbrev signer : SshSigner
signer = record { fingerprint = text "fp"; sign = λ m. some (text "s") }

abbrev hash : Text → Text
hash s = s

abbrev coins : Text → Text → ℕ
coins env name = 7

abbrev or_else : Option Text → Text
or_else none = []
or_else (some t) = t

abbrev entry : Text
entry = encode (
    or_else (
      toy.encrypt 7 (text "h" ∷ text "r" ∷ []) (envelope (text "pw") (pos 7) (text "DB") (pos 40))))

abbrev section : EnvSection
section = record { cluster = text "c"; entries = some ((text "DB", entry) ∷ []); sig = none }

abbrev old : SealedBundle
old = record (per_env_bundle (text "v2") ((text "prod", section) ∷ [])) { project_id = pos 7 }

has_prod : lookup (text "prod") (or_nil old.envs) ≡ some section
unfolding lookup text_eq
has_prod = refl

abbrev in_v3 : SealedBundle × MigrateResult
in_v3 =
    migrated (text "v3") signer old
      ((text "prod", with_sig (record section { cluster = [] }) (text "fp") (text "s")) ∷ [])

to_v3 : migrate_bundle_to_v3 hash old (pos 7) signer ≡ ok in_v3
unfolding migrate_bundle_to_v3 migrate_sections migrate_section_v3 text_eq
to_v3 = refl

migrate_bundle_to_v3-kept_example :
    (in_v3.0.version ≡ text "v3")
    × ((text_eq old.version (text "v2")
          && (not (eqb_ℤ old.project_id (pos 0)) && not (eqb_ℤ old.project_id (pos 7))))
        ≡ false)
    × ((sig : Text) × (signer.sign
            (message hash (pos 7) (text "prod") (record section { cluster = [] }))
          ≡ some sig)
        × (lookup (text "prod") (or_nil in_v3.0.envs)
            ≡ some (with_sig (record section { cluster = [] }) signer.fingerprint sig)))
migrate_bundle_to_v3-kept_example =
    migrate_bundle_to_v3-kept hash old in_v3.0 in_v3.1 (pos 7) signer (text "prod") section to_v3
      has_prod

abbrev entry_v4 : Text
entry_v4 = encode (
    or_else (
      toy.encrypt 7 (text "h" ∷ text "r" ∷ [])
        (envelope_v4 (text "pw") (text "h") (text "DB") (pos 40))))

abbrev section_v4 : EnvSection
section_v4 = record {
  cluster = [];
  entries = some ((text "DB", entry_v4) ∷ []);
  sig = some (record { by = text "fp"; sig = text "s" });
}

abbrev in_v4 : SealedBundle × MigrateResult
in_v4 = migrated (text "v4") signer old ((text "prod", section_v4) ∷ [])

abbrev clusters : Dict Text Text
clusters = (text "c", text "r") ∷ []

abbrev env_cluster : Dict Text Text
env_cluster = (text "prod", text "c") ∷ []

to_v4 :
    migrate_bundle_to_v4 hash toy coins old (text "h") (text "h") clusters env_cluster signer
    ≡ ok in_v4
unfolding migrate_bundle_to_v4 migrate_sections migrate_section_v4 reseal_section reseal_entries
    decrypt_for_migrate is_per_env_version env_ciphertext lookup insert keys sort_texts
    insert_sorted text_eq strip_prefix decode decode_groups strip_breaks decode_sextet encode
    encode_sextet parse encrypt decrypt frame mark unframe unseal_verified open_verified
    decrypt_envelope zeroize parse_headers read_lines read_line read_case parse_level_line
    cut_blank_line split_lines trim_space trim_left parse_int parse_digits format_int format_ℕ
    seal_multi_v4 seal_envelope_v4 parse_recipients
to_v4 = refl

migrate_bundle_to_v4-kept_example :
    (in_v4.0.version ≡ text "v4")
    × ((cluster recip : Text) × (new : EnvSection) × (lookup (text "prod") env_cluster
          ≡ some cluster)
        × (lookup cluster clusters ≡ some recip)
        × (lookup (text "prod") (or_nil in_v4.0.envs) ≡ some new)
        × ResealedSection hash toy coins old
            (text "h")
            recip
            signer
            (λ ct. decrypt_for_migrate toy ct (text "h") old.project_id)
            (text "prod")
            section
            new)
migrate_bundle_to_v4-kept_example =
    migrate_bundle_to_v4-kept hash toy coins old in_v4.0 in_v4.1 (text "h") (text "h") clusters
      env_cluster signer (text "prod") section to_v4 has_prod

-- the same bundle, its env with a recipient of its own
abbrev entry_env : Text
entry_env = encode (
    or_else (
      toy.encrypt 7 (text "h" ∷ text "e" ∷ [])
        (envelope_v4 (text "pw") (text "h") (text "DB") (pos 40))))

abbrev env_recipients : Dict Text Text
env_recipients = (text "prod", text "e") ∷ []

abbrev for_envs : SealedBundle × MigrateResult
for_envs =
    migrated (text "v4") signer in_v4.0
      ((text "prod", record section_v4 { entries = some ((text "DB", entry_env) ∷ []) }) ∷ [])

to_envs :
    re_seal_to_env_recipients hash toy coins in_v4.0 (text "h") (text "h") env_recipients signer
    ≡ ok for_envs
unfolding re_seal_to_env_recipients migrate_sections reseal_section_env reseal_section
    reseal_entries is_per_env_version env_ciphertext lookup insert keys sort_texts insert_sorted
    text_eq strip_prefix decode decode_groups strip_breaks decode_sextet encode encode_sextet parse
    encrypt decrypt frame mark unframe unseal_verified_by_key open_verified_by_key decrypt_envelope
    zeroize parse_headers_v4 read_lines read_line read_case parse_level_line cut_blank_line
    split_lines trim_space trim_left parse_int parse_digits format_int format_ℕ seal_multi_v4
    seal_envelope_v4 parse_recipients
to_envs = refl

v4_has_prod : lookup (text "prod") (or_nil in_v4.0.envs) ≡ some section_v4
unfolding lookup text_eq
v4_has_prod = refl

re_seal_to_env_recipients-kept_example :
    (for_envs.0.version ≡ in_v4.0.version)
    × ((recip : Text) × (new : EnvSection) × (lookup (text "prod") env_recipients ≡ some recip)
        × (is_empty recip ≡ false)
        × (lookup (text "prod") (or_nil for_envs.0.envs) ≡ some new)
        × ResealedSection hash toy coins in_v4.0
            (text "h")
            recip
            signer
            (λ ct. (unseal_verified_by_key toy ct (text "h") (text "h")).0)
            (text "prod")
            section_v4
            new)
re_seal_to_env_recipients-kept_example =
    re_seal_to_env_recipients-kept hash toy coins in_v4.0 for_envs.0 for_envs.1 (text "h")
      (text "h") env_recipients signer (text "prod") section_v4 to_envs v4_has_prod
