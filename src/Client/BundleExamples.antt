-- ===== src/Client/BundleExamples.antt =====
-- Signing, rotating and migrating a bundle of one section, over the toy age.
use gitseal.Prelude.{
  ℕ, ◌≡◌, refl, true, false, not, ◌&&◌, Option, none, some, List, [], ◌∷◌, ◌++◌, Text, text,
  text_key, text_eq, ℤ, pos, eqb_ℤ, ltb_ℤ, is_empty, Result, ok, err, if◌then◌else◌,
}
use gitseal.Prelude.Dict.{Dict, lookup}
use gitseal.Age.{toy, toy-AgeLaws}
use gitseal.Age.Toy
use gitseal.Client.Bundle.{SealedBundle, EnvSection, or_nil, is_per_env_version}
use gitseal.Client.Author.{seal_bundle_v4, unsigned, section_of, per_env_bundle}
use gitseal.Client.Author.Names.{NameDiff}
use gitseal.Client.Author.Reseal.{EntryOf, fresh_entry}
use gitseal.Client.Author.Total.{HasRecipient, seal_bundle_v4_total}
use gitseal.Client.Authz.Sig.{SignerResolver, verify_section_authz_v4}
use gitseal.Client.Sign.{SshSigner, sign_bundle_file_v4, sign_sections, with_sig}
use gitseal.Client.Sign.Laws.{verify_section_authz_v4-sign_bundle_file_v4}
use gitseal.Client.Rotate.{strip_key_from_bundle, strip_sections, count_removed}
use gitseal.Client.Rotate.Laws.{seal_bundle_v4-strip_key_from_bundle}

abbrev signer : SshSigner
signer = record { fingerprint = text "fp"; sign = λ m. some (text "s") }

abbrev hash : Text → Text
hash s = s

abbrev section : EnvSection
section = record {
  cluster = text "c";
  entries = some ((text "DB", text "AAAA") ∷ (text "API", text "BBBB") ∷ []);
  sig = none;
}

abbrev bundle : Text → SealedBundle
bundle version = per_env_bundle version ((text "prod", section) ∷ [])

abbrev resolver : SignerResolver
resolver = record {
  pub_key_for = λ fp. some fp;
  live_level_for = λ fp. some (pos 40);
  verify = λ key msg sig. text_eq sig (text "s");
}

abbrev signed_section : EnvSection
signed_section = with_sig section (text "fp") (text "s")

signed :
    sign_bundle_file_v4 hash (bundle (text "v4")) (text "h") signer
    ≡ ok (per_env_bundle (text "v4") ((text "prod", signed_section) ∷ []), text "fp")
unfolding sign_bundle_file_v4 sign_sections text_eq
signed = refl

has_prod : (v : Text) → lookup (text "prod") (or_nil (bundle v).envs) ≡ some section
unfolding lookup text_eq
has_prod v = refl

verifies :
    (m sig : Text)
    → signer.sign m ≡ some sig
    → (resolver.verify (text "fp") m sig ≡ true) × (is_empty sig ≡ false)
verifies m sig e = let same : text "s" ≡ sig = cc in rw (← same) (unfold text_eq in refl, refl)

verify_section_authz_v4-sign_bundle_file_v4_example :
    (out : EnvSection) × (lookup (text "prod") (or_nil (some ((text "prod", signed_section) ∷ [])))
      ≡ some out)
    × (out.entries ≡ section.entries)
    × (verify_section_authz_v4 hash (text "h") (text "prod") out (pos 40) resolver ≡ ok tt)
verify_section_authz_v4-sign_bundle_file_v4_example =
    verify_section_authz_v4-sign_bundle_file_v4 hash (bundle (text "v4"))
      (per_env_bundle (text "v4") ((text "prod", signed_section) ∷ [])) (text "h") (text "fp")
      (text "prod") (text "fp") signer section (pos 40) (pos 40) resolver signed
      (has_prod (text "v4")) refl verifies refl refl refl

abbrev stripped : SealedBundle
stripped =
    per_env_bundle (text "v4")
      ((text "prod", record section { entries = some ((text "API", text "BBBB") ∷ []) }) ∷ [])

strip : strip_key_from_bundle (bundle (text "v4")) (text "DB") ≡ ok (stripped, 1)
unfolding strip_key_from_bundle strip_sections count_removed is_per_env_version lookup text_eq
    gitseal.Prelude.Dict.erase
strip = refl

abbrev env_recipient : Dict Text Text
env_recipient = (text "prod", text "r") ∷ []

abbrev vals : Dict Text Text
vals = (text "DB", text "new") ∷ (text "API", text "old") ∷ []

abbrev resolved : Dict Text (Dict Text Text)
resolved = (text "prod", vals) ∷ []

abbrev coins : Text → Text → ℕ
coins env name = 7

h_parses : toy.parse_recipient (text "h") ≡ some (text "h")
unfolding Toy.parse
h_parses = refl

r_parses : toy.parse_recipient (text "r") ≡ some (text "r")
unfolding Toy.parse
r_parses = refl

prod_recipient : lookup (text "prod") env_recipient ≡ some (text "r")
unfolding lookup text_eq
prod_recipient = refl

has_recipients :
    gitseal.Prelude.All (HasRecipient toy env_recipient) (gitseal.Prelude.Dict.keys resolved)
unfolding gitseal.Prelude.Dict.keys
has_recipients = ((text "r", text "r", prod_recipient, r_parses), tt)

abbrev run :
    (r : SealedBundle × Dict Text NameDiff) × (seal_bundle_v4 toy coins
        (some stripped)
        (text "h")
        env_recipient
        (pos 30)
        resolved
      ≡ ok r)
run =
    seal_bundle_v4_total toy toy-AgeLaws coins (some stripped) (text "h") (text "h") env_recipient
      30 resolved (omega gitseal.Prelude.arith) h_parses has_recipients

given : lookup (text "prod") resolved ≡ some vals
unfolding lookup text_eq
given = refl

seal_bundle_v4-strip_key_from_bundle_example :
    (recip : Text) × (entries : Dict Text Text) × (lookup (text "prod") env_recipient ≡ some recip)
    × (lookup (text "prod") (or_nil run.0.0.envs) ≡ some (unsigned entries))
    × ((name : Text)
        → EntryOf
            (fresh_entry toy coins (text "h") (pos 30) (text "prod") recip name)
            (lookup name vals)
            (if text_eq (text "DB") name
              then none
              else lookup name (
                  or_nil
                    (section_of (lookup (text "prod") (or_nil (bundle (text "v4")).envs))).entries))
            (lookup name entries))
seal_bundle_v4-strip_key_from_bundle_example =
    seal_bundle_v4-strip_key_from_bundle toy coins (text "h") env_recipient (pos 30)
      (bundle (text "v4")) stripped run.0.0 (text "DB") (text "prod") 1 resolved vals run.0.1 refl
      strip run.1 given
