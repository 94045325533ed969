-- ===== src/Client/AuthorExamples.antt =====
-- One env sealed and materialized, over the toy age.
use gitseal.Prelude.{
  ℕ, ◌≡◌, refl, true, none, some, [], ◌∷◌, Text, text, text_key, text_eq, pos, All, ok, arith,
}
use gitseal.Prelude.Dict.{Dict, lookup, keys}
use gitseal.Age.{toy, toy-AgeLaws}
use gitseal.Age.Toy
use gitseal.Client.Bundle.{SealedBundle, or_nil}
use gitseal.Client.Author.{seal_bundle_v4, v4_prior}
use gitseal.Client.Author.Names.{NameDiff}
use gitseal.Client.Author.Reseal.{SectionOf, seal_bundle_v4-SectionOf}
use gitseal.Client.Author.Total.{HasRecipient, seal_bundle_v4_total}
use gitseal.Client.Materialize.{
  MaterializeInput, build_secret_for_bundle, valid_dns_label, dns_1123_label, ends_alphanumeric,
}
use gitseal.Client.Materialize.Laws.{Built, build_secret_for_bundle-Built}
use gitseal.Client.Materialize.Labels.{IsDnsLabel, build_secret_for_bundle-IsDnsLabel}
use gitseal.Client.Delivery.{opaque_secret, build_secret_for_bundle-seal_bundle_v4}

abbrev coins : Text → Text → ℕ
coins env name = 7

abbrev env_recipient : Dict Text Text
env_recipient = (text "prod", text "r") ∷ []

abbrev vals : Dict Text Text
vals = (text "DB", text "secret") ∷ []

abbrev resolved : Dict Text (Dict Text Text)
resolved = (text "prod", vals) ∷ []

abbrev inp : MaterializeInput
inp = record {
  env = text "prod";
  namespace = text "demo";
  cluster = text "c";
  identity = text "r";
  project_id = pos 0;
  recipient = text "h";
  secret_prefix = text "app-";
}

h_parses : toy.parse_recipient (text "h") ≡ some (text "h")
unfolding Toy.parse
h_parses = refl

r_parses : toy.parse_recipient (text "r") ≡ some (text "r")
unfolding Toy.parse
r_parses = refl

prod_recipient : lookup (text "prod") env_recipient ≡ some (text "r")
unfolding lookup text_eq
prod_recipient = refl

has_recipients : All (HasRecipient toy env_recipient) (keys resolved)
unfolding keys
has_recipients = ((text "r", text "r", prod_recipient, r_parses), tt)

abbrev run :
    (r : SealedBundle × Dict Text NameDiff) × (seal_bundle_v4 toy coins none
        (text "h")
        env_recipient
        (pos 30)
        resolved
      ≡ ok r)
run =
    seal_bundle_v4_total toy toy-AgeLaws coins none (text "h") (text "h") env_recipient 30 resolved
      (omega arith) h_parses has_recipients

seal_bundle_v4_total_example :
    (r : SealedBundle × Dict Text NameDiff) × (seal_bundle_v4 toy coins none
        (text "h")
        env_recipient
        (pos 30)
        resolved
      ≡ ok r)
seal_bundle_v4_total_example =
    seal_bundle_v4_total toy toy-AgeLaws coins none (text "h") (text "h") env_recipient 30 resolved
      (omega arith) h_parses has_recipients

seal_bundle_v4-SectionOf_example :
    SectionOf toy coins
      (text "h")
      env_recipient
      (pos 30)
      (text "prod")
      (lookup (text "prod") resolved)
      (lookup (text "prod") (v4_prior none))
      (lookup (text "prod") (or_nil run.0.0.envs))
seal_bundle_v4-SectionOf_example =
    seal_bundle_v4-SectionOf toy coins (text "h") env_recipient (pos 30) none resolved run.0.0
      run.0.1 (text "prod") run.1

given : lookup (text "prod") resolved ≡ some vals
unfolding lookup text_eq
given = refl

fresh : lookup (text "prod") (v4_prior none) ≡ none
unfolding lookup
fresh = refl

svc_label : valid_dns_label (text "web") ≡ true
unfolding valid_dns_label dns_1123_label ends_alphanumeric
svc_label = refl

namespace_label : valid_dns_label (text "demo") ≡ true
unfolding valid_dns_label dns_1123_label ends_alphanumeric
namespace_label = refl

name_label : valid_dns_label (text "app-web-app") ≡ true
unfolding valid_dns_label dns_1123_label ends_alphanumeric
name_label = refl

abbrev delivered :
    (found : Dict Text Text) × (build_secret_for_bundle toy run.0.0 (text "web") inp
      ≡ ok (opaque_secret (text "web") inp found))
    × ((name : Text) → lookup name found ≡ lookup name vals)
delivered =
    build_secret_for_bundle-seal_bundle_v4 toy toy-AgeLaws coins none env_recipient resolved vals
      run.0.0 run.0.1 (text "web") inp (text "r") (text "h") (text "r") (text "r") 30 run.1 given
      fresh prod_recipient (omega arith) (omega arith) ((omega arith, omega arith, omega arith), tt)
      h_parses r_parses r_parses (unfold text_eq in refl) svc_label namespace_label name_label
      (unfold text_eq in refl)

build_secret_for_bundle-seal_bundle_v4_example :
    (found : Dict Text Text) × (build_secret_for_bundle toy run.0.0 (text "web") inp
      ≡ ok (opaque_secret (text "web") inp found))
    × ((name : Text) → lookup name found ≡ lookup name vals)
build_secret_for_bundle-seal_bundle_v4_example =
    build_secret_for_bundle-seal_bundle_v4 toy toy-AgeLaws coins none env_recipient resolved vals
      run.0.0 run.0.1 (text "web") inp (text "r") (text "h") (text "r") (text "r") 30 run.1 given
      fresh prod_recipient (omega arith) (omega arith) ((omega arith, omega arith, omega arith), tt)
      h_parses r_parses r_parses (unfold text_eq in refl) svc_label namespace_label name_label
      (unfold text_eq in refl)

build_secret_for_bundle-Built_example :
    Built toy run.0.0 (text "web") inp (opaque_secret (text "web") inp delivered.0)
build_secret_for_bundle-Built_example =
    build_secret_for_bundle-Built toy run.0.0 (text "web") inp
      (opaque_secret (text "web") inp delivered.0) delivered.1

build_secret_for_bundle-IsDnsLabel_example :
    IsDnsLabel (text "app-web-app") × IsDnsLabel (text "demo")
build_secret_for_bundle-IsDnsLabel_example =
    build_secret_for_bundle-IsDnsLabel toy run.0.0 (text "web") inp
      (opaque_secret (text "web") inp delivered.0) delivered.1
