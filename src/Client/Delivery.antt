-- ===== src/Client/Delivery.antt =====
-- sealedbundle_v4.go with materialize.go: from the values of an env to the Secret in its cluster.
use mathlib.Core.Option.{some-injective}
use gitseal.Prelude.{
  ℕ, ◌≡◌, ◌≤◌, refl, true, false, Option, none, some, [], ◌∷◌, ◌++◌, Text, text, text_key, text_eq,
  pos, is_empty, All, ok, ap, sym, ◌∙◌, >>=-eq-ok, ok-inj,
}
use gitseal.Prelude.Dict.{Dict, lookup, keys, lookup-nil}
use gitseal.Prelude.Sort.{sort_texts}
use gitseal.Strconv.{max_int64}
use gitseal.Age.{Age, AgeLaws, listed}
use gitseal.Crypto.Open.{unseal_verified_by_key}
use gitseal.Client.Bundle.{SealedBundle, or_nil, env_ciphertext, is_per_env_version}
use gitseal.Client.Author.{unsigned, v4_prior, seal_bundle_v4, seal_envs, seal_env_v4}
use gitseal.Client.Author.Names.{NameDiff}
use gitseal.Client.Author.Reseal.{EntryOf, fresh_entry, seal_bundle_v4-SectionOf}
use gitseal.Client.Author.Values.{IsSealable}
use gitseal.Client.Author.Delivery.{decrypts, opener-v4}
use gitseal.Client.Materialize.{
  MaterializeInput, K8sSecret, valid_dns_label, docker_secret_svc, opaque_type, decrypt_entries,
  assemble_secret, build_secret_for_bundle,
}

-- The bundle that is written is of version v4.
pub seal_bundle_v4-version :
    (age : Age) (coins : Text → Text → ℕ) (prior : Option SealedBundle) (human : Text)
    (env_recipient : Dict Text Text) (n : ℕ) (resolved : Dict Text (Dict Text Text))
    (b : SealedBundle) (diffs : Dict Text NameDiff)
    → seal_bundle_v4 age coins prior human env_recipient (pos n) resolved ≡ ok (b, diffs)
    → b.version ≡ text "v4"
unfolding seal_bundle_v4
seal_bundle_v4-version age coins prior human env_recipient n resolved b diffs e =
    let ((out, ds), _, e₁) =
      >>=-eq-ok
        (seal_envs (seal_env_v4 age coins human env_recipient (pos n) resolved (v4_prior prior))
          (v4_prior prior) (sort_texts (keys resolved)) (v4_prior prior))
        _ e in
    sym (ap (λ (r : SealedBundle × Dict Text NameDiff). r.0.version) (ok-inj e₁))

-- The Secret of a service other than the docker credential.
abbrev pub opaque_secret : Text → MaterializeInput → Dict Text Text → K8sSecret
opaque_secret svc inp found = record {
  name = inp.secret_prefix ++ (svc ++ text "-app");
  namespace = inp.namespace;
  type_name = opaque_type;
  contents = found;
}

assemble_secret-opaque :
    (svc : Text) (inp : MaterializeInput) (found : Dict Text Text)
    → valid_dns_label svc ≡ true
    → valid_dns_label inp.namespace ≡ true
    → valid_dns_label (inp.secret_prefix ++ (svc ++ text "-app")) ≡ true
    → text_eq svc docker_secret_svc ≡ false
    → assemble_secret svc inp.namespace inp.secret_prefix found ≡ ok (opaque_secret svc inp found)
unfolding assemble_secret
assemble_secret-opaque svc inp found v n f d = rw (v, n, d, f) refl

build_secret_for_bundle-v4 :
    (age : Age) (b : SealedBundle) (svc : Text) (inp : MaterializeInput)
    (entries found : Dict Text Text)
    → b.version ≡ text "v4"
    → lookup inp.env (or_nil b.envs) ≡ some (unsigned entries)
    → is_empty inp.recipient ≡ false
    → decrypt_entries
        (env_ciphertext b inp.env)
        (λ ct. (unseal_verified_by_key age ct inp.identity inp.recipient).0)
        (sort_texts (keys entries))
        []
      ≡ ok found
    → build_secret_for_bundle age b svc inp
      ≡ assemble_secret svc inp.namespace inp.secret_prefix found
unfolding build_secret_for_bundle
build_secret_for_bundle-v4 age b svc inp entries found v there r dec =
    let v4 : text_eq b.version (text "v4") ≡ true = rw v (unfold text_eq in refl) in
    let per : is_per_env_version b.version ≡ true =
      rw v (unfold is_per_env_version text_eq in refl) in
    rw (per, there, opener-v4 age b inp v4 r, dec) refl

-- What SectionOf says of an env that the prior does not hold.
sealed_entries :
    (age : Age) (coins : Text → Text → ℕ) (prior : Option SealedBundle) (human : Text)
    (env_recipient : Dict Text Text) (n : ℕ) (resolved : Dict Text (Dict Text Text))
    (vals : Dict Text Text) (b : SealedBundle) (diffs : Dict Text NameDiff) (env recip : Text)
    → seal_bundle_v4 age coins prior human env_recipient (pos n) resolved ≡ ok (b, diffs)
    → lookup env resolved ≡ some vals
    → lookup env (v4_prior prior) ≡ none
    → lookup env env_recipient ≡ some recip
    → (entries : Dict Text Text) × (lookup env (or_nil b.envs) ≡ some (unsigned entries))
      × ((name : Text)
          → EntryOf
              (fresh_entry age coins human (pos n) env recip name)
              (lookup name vals)
              none
              (lookup name entries))
sealed_entries age coins prior human env_recipient n resolved vals b diffs env recip sealed given
      fresh r =
    let (recip', entries, r', there, h) =
      rw (given, fresh) at
        (seal_bundle_v4-SectionOf age coins human env_recipient (pos n) prior resolved b diffs env
          sealed) in
    let same : recip' ≡ recip = some-injective recip' recip (sym r' ∙ r) in
    (entries, there, λ name. rw (lookup-nil {K = Text} {V = Text} name) at (rw same at (h name)))

module _ (age : Age) (laws : AgeLaws age) (coins : Text → Text → ℕ) where
  -- Values are sealed into a v4 bundle for an env that the v4 prior does not hold, at a level from 30
  -- up to the greatest int64; each name is one line, and names and values are bytes. Then the env's
  -- cluster (whose identity belongs to the env's recipient or to the project's key), asked for a
  -- service other than the docker credential under valid labels, builds an Opaque Secret with the
  -- prefixed name, the given namespace, and under each name exactly the value that was given for it.
  pub build_secret_for_bundle-seal_bundle_v4 :
      (prior : Option SealedBundle) (env_recipient : Dict Text Text)
      (resolved : Dict Text (Dict Text Text)) (vals : Dict Text Text) (b : SealedBundle)
      (diffs : Dict Text NameDiff) (svc : Text) (inp : MaterializeInput) (recip ph pr id : Text)
      (n : ℕ)
      → seal_bundle_v4 age coins prior inp.recipient env_recipient (pos n) resolved ≡ ok (b, diffs)
      → lookup inp.env resolved ≡ some vals
      → lookup inp.env (v4_prior prior) ≡ none
      → lookup inp.env env_recipient ≡ some recip
      → 30 ≤ n
      → n ≤ max_int64
      → All IsSealable vals
      → age.parse_recipient inp.recipient ≡ some ph
      → age.parse_recipient recip ≡ some pr
      → age.parse_identity inp.identity ≡ some id
      → listed (age.recipient_of id) (ph ∷ pr ∷ []) ≡ true
      → valid_dns_label svc ≡ true
      → valid_dns_label inp.namespace ≡ true
      → valid_dns_label (inp.secret_prefix ++ (svc ++ text "-app")) ≡ true
      → text_eq svc docker_secret_svc ≡ false
      → (found : Dict Text Text) × (build_secret_for_bundle age b svc inp
          ≡ ok (opaque_secret svc inp found))
        × ((name : Text) → lookup name found ≡ lookup name vals)
  build_secret_for_bundle-seal_bundle_v4 prior env_recipient resolved vals b diffs svc inp recip ph
        pr id n sealed given fresh r low high good eh er ei m ls ln lf nd =
      let (entries, there, entry) =
        sealed_entries age coins prior inp.recipient env_recipient n resolved vals b diffs inp.env
          recip sealed given fresh r in
      let (found, dec, same) =
        decrypts age laws coins inp.recipient recip ph pr inp.identity id inp.env n b vals entries
          low high good eh er ei m there entry in
      (
        found,
        build_secret_for_bundle-v4 age b svc inp entries found
              (seal_bundle_v4-version age coins prior inp.recipient env_recipient n resolved b diffs
                sealed)
              there (laws.bech32 inp.recipient ph eh).0 dec
            ∙ assemble_secret-opaque svc inp found ls ln lf nd,
        same,
      )
