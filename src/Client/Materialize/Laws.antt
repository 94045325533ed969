-- ===== src/Client/Materialize/Laws.antt =====
-- materialize.go: all of a section or nothing, under names that are DNS labels.
use gitseal.Prelude.{
  ◌≡◌, refl, Bool, true, false, not, ◌&&◌, Option, none, some, List, [], ◌∷◌, ◌++◌, Text, text,
  text_key, text_eq, text_eq_iff, ℤ, pos, eqb_ℤ, is_empty, any, if◌then◌else◌, Result, ok, err,
  ◌>>=◌, refuse_if, arith, ap, sym, ◌∙◌, >>=-eq-ok, require-bind-eq-ok, refuse_if-eq-ok, ok-inj,
  inl, inr, Bool-cases,
}
use gitseal.Prelude.Dict.{Dict, lookup, insert, keys, lookup-nil, lookup-insert}
use gitseal.Prelude.Sort.{sort_texts, any-sort_texts}
use gitseal.Age.{Age}
use gitseal.Crypto.Errors.{Error}
use gitseal.Crypto.Open.{unseal_verified, unseal_verified_by_key}
use gitseal.Client.Bundle.{EnvSection, SealedBundle, or_nil, env_ciphertext, is_per_env_version}
use gitseal.Client.Author.Reseal.{any-keys}
use gitseal.Client.Materialize.{
  MaterializeInput, K8sSecret, not_per_env, absent_env, no_recipient, no_project_id, wrong_cluster,
  unreadable, invalid_service, invalid_namespace, invalid_name, valid_dns_label, docker_secret_svc,
  sole_value, secret_of, assemble_secret, plaintext_of, decrypt_entries, numeric_id, opener,
  build_secret_for_bundle,
}

plaintext_of-eq-ok :
    (name pt : Text) (r : Result Error (Text × ℤ))
    → plaintext_of name r ≡ ok pt
    → (level : ℤ) × (r ≡ ok (pt, level))
plaintext_of-eq-ok name pt (ok (p, level)) e = (level, ap (λ (t : Text). ok (t, level)) (ok-inj e))
plaintext_of-eq-ok name pt (err x) e = cc

module _ (read : Text → Option Text) (open_one : Text → Result Error (Text × ℤ)) where
  -- A name that is not in the list keeps its value.
  pub decrypt_entries-other :
      (names : List Text) (found out : Dict Text Text) (name : Text)
      → decrypt_entries read open_one names found ≡ ok out
      → any (text_eq name) names ≡ false
      → lookup name out ≡ lookup name found
  unfolding decrypt_entries
  decrypt_entries-other [] found out name e _ = ap (lookup name) (sym (ok-inj e))
  decrypt_entries-other (n ∷ names) found out name e absent =
      let (ct, r, e₁) = require-bind-eq-ok (read n) (unreadable n) _ _ e in
      let (pt, p, e₂) = >>=-eq-ok (plaintext_of n (open_one ct)) _ e₁ in
      decrypt_entries-other names (insert n pt found) out name e₂ (ground arith)
      ∙ ground (arith, lookup-insert name n pt found, text_eq_iff n name, text_eq_iff name n)

  -- A name in the list has a ciphertext that opens to its value.
  pub decrypt_entries-listed :
      (names : List Text) (found out : Dict Text Text) (name : Text)
      → decrypt_entries read open_one names found ≡ ok out
      → any (text_eq name) names ≡ true
      → (ct : Text) × (pt : Text) × (level : ℤ) × (read name ≡ some ct)
        × (open_one ct ≡ ok (pt, level))
        × (lookup name out ≡ some pt)
  unfolding decrypt_entries
  decrypt_entries-listed [] found out name e listed = cc
  decrypt_entries-listed (n ∷ names) found out name e listed =
      let (ct, r, e₁) = require-bind-eq-ok (read n) (unreadable n) _ _ e in
      let (pt, p, e₂) = >>=-eq-ok (plaintext_of n (open_one ct)) _ e₁ in
      let (level, opened) = plaintext_of-eq-ok n pt (open_one ct) p in
      elim (Bool-cases (any (text_eq name) names)) [
        | inl later ↦ decrypt_entries-listed names (insert n pt found) out name e₂ later
        | inr last ↦
            let here : n ≡ name = ground (arith, text_eq_iff n name, text_eq_iff name n) in
            (
              ct,
              pt,
              level,
              rw (sym here) r,
              opened,
              decrypt_entries-other names (insert n pt found) out name e₂ last
                  ∙ ground (arith, lookup-insert name n pt found, text_eq_iff n name),
            )
      ]

sole_value-eq-ok :
    (found : Dict Text Text) (val : Text)
    → sole_value found ≡ ok val
    → (k : Text) × (found ≡ (k, val) ∷ [])
sole_value-eq-ok [] val e = cc
sole_value-eq-ok ((k, v) ∷ []) val e = (k, ap (λ (t : Text). (k, t) ∷ []) (ok-inj e))
sole_value-eq-ok (p ∷ q ∷ d) val e = cc

-- An assembled Secret keeps the namespace, and its name and namespace are DNS labels.
pub secret_of-labels :
    (b : Bool) (svc namespace prefix : Text) (found : Dict Text Text) (s : K8sSecret)
    → text_eq svc docker_secret_svc ≡ b
    → valid_dns_label svc ≡ true
    → valid_dns_label namespace ≡ true
    → secret_of b svc namespace prefix found ≡ ok s
    → (valid_dns_label s.name ≡ true) × (valid_dns_label s.namespace ≡ true)
secret_of-labels true svc namespace prefix found s t v n e =
    let (val, _, e') = >>=-eq-ok (sole_value found) _ e in
    let docker : svc ≡ docker_secret_svc = (text_eq_iff svc docker_secret_svc).0 t in
    rw (sym (ok-inj e')) (rw docker at (v), n)
secret_of-labels false svc namespace prefix found s t v n e =
    let full : Text = prefix ++ (svc ++ text "-app") in
    let (l, e') = refuse_if-eq-ok (not (valid_dns_label full)) (invalid_name full) _ _ e in
    rw (sym (ok-inj e')) (ground arith, n)

-- What assembling tests.
pub assemble_secret-eq-ok :
    (svc namespace prefix : Text) (found : Dict Text Text) (s : K8sSecret)
    → assemble_secret svc namespace prefix found ≡ ok s
    → (valid_dns_label svc ≡ true)
      × (valid_dns_label namespace ≡ true)
      × (secret_of (text_eq svc docker_secret_svc) svc namespace prefix found ≡ ok s)
unfolding assemble_secret
assemble_secret-eq-ok svc namespace prefix found s e =
    let (v, e₁) = refuse_if-eq-ok (not (valid_dns_label svc)) (invalid_service svc) _ _ e in
    let (n, e₂) =
      refuse_if-eq-ok (not (valid_dns_label namespace)) (invalid_namespace namespace) _ _ e₁ in
    (ground arith, ground arith, e₂)

-- How an entry was opened: for the project's key in a v4 bundle, and else for the numeric id.
abbrev pub OpensTo : Age → SealedBundle → MaterializeInput → Text → Text → Type 0
OpensTo age b inp ct pt =
    (level : ℤ) × ((if text_eq b.version (text "v4")
        then (unseal_verified_by_key age ct inp.identity inp.recipient).0
        else (unseal_verified age ct inp.identity (numeric_id b inp)).0)
      ≡ ok (pt, level))

-- What a name's value in the Secret is, from whether the section has an entry of that name.
abbrev pub ValueOf :
    Age → SealedBundle → MaterializeInput → Text → Option Text → Option Text → Type 0
ValueOf age b inp name none value = value ≡ none
ValueOf age b inp name (some enc) value =
    (ct : Text) × (pt : Text) × (env_ciphertext b inp.env name ≡ some ct)
    × OpensTo age b inp ct pt
    × (value ≡ some pt)

opener-eq-ok :
    (age : Age) (b : SealedBundle) (inp : MaterializeInput) (f : Text → Result Error (Text × ℤ))
    (ct pt : Text) (level : ℤ)
    → opener age b inp ≡ ok f
    → f ct ≡ ok (pt, level)
    → OpensTo age b inp ct pt
unfolding opener
opener-eq-ok age b inp f ct pt level e h =
    (level, chosen age b inp f ct pt level (text_eq b.version (text "v4")) e h)
  where
    chosen :
        (age : Age) (b : SealedBundle) (inp : MaterializeInput) (f : Text → Result Error (Text × ℤ))
        (ct pt : Text) (level : ℤ) (v4 : Bool)
        → (if v4
            then (refuse_if (is_empty inp.recipient) no_recipient >>= λ _.
                ok (λ (c : Text). (unseal_verified_by_key age c inp.identity inp.recipient).0))
            else (refuse_if (eqb_ℤ (numeric_id b inp) (pos 0)) no_project_id >>= λ _.
                ok (λ (c : Text). (unseal_verified age c inp.identity (numeric_id b inp)).0)))
          ≡ ok f
        → f ct ≡ ok (pt, level)
        → (if v4
            then (unseal_verified_by_key age ct inp.identity inp.recipient).0
            else (unseal_verified age ct inp.identity (numeric_id b inp)).0)
          ≡ ok (pt, level)
    chosen age b inp f ct pt level true e h =
        let (_, e') = refuse_if-eq-ok (is_empty inp.recipient) no_recipient _ _ e in
        ap (λ (g : Text → Result Error (Text × ℤ)). g ct) (ok-inj e') ∙ h
    chosen age b inp f ct pt level false e h =
        let (_, e') = refuse_if-eq-ok (eqb_ℤ (numeric_id b inp) (pos 0)) no_project_id _ _ e in
        ap (λ (g : Text → Result Error (Text × ℤ)). g ct) (ok-inj e') ∙ h

-- What was found before the Secret was assembled.
pub record Built (age : Age) (b : SealedBundle) (svc : Text) (inp : MaterializeInput)
    (s : K8sSecret) : Type 0 where
  pub sec : EnvSection
  pub found : Dict Text Text
  pub present : lookup inp.env (or_nil b.envs) ≡ some sec
  pub per_env : is_per_env_version b.version ≡ true
  pub same_cluster : (not (is_empty sec.cluster) && not (text_eq sec.cluster inp.cluster)) ≡ false
  pub values :
      (name : Text) → ValueOf age b inp name (lookup name (or_nil sec.entries)) (lookup name found)
  pub assembled : assemble_secret svc inp.namespace inp.secret_prefix found ≡ ok s

listed_or_other :
    (age : Age) (b : SealedBundle) (inp : MaterializeInput) (f : Text → Result Error (Text × ℤ))
    (entries found : Dict Text Text) (name : Text) (o : Option Text)
    → opener age b inp ≡ ok f
    → decrypt_entries (env_ciphertext b inp.env) f (sort_texts (keys entries)) [] ≡ ok found
    → lookup name entries ≡ o
    → ValueOf age b inp name o (lookup name found)
listed_or_other age b inp f entries found name none op e absent =
    decrypt_entries-other (env_ciphertext b inp.env) f (sort_texts (keys entries)) [] found name e
      (rw (any-sort_texts (text_eq name) (keys entries), any-keys name entries, absent) refl)
    ∙ lookup-nil {K = Text} {V = Text} name
listed_or_other age b inp f entries found name (some enc) op e there =
    let (ct, pt, level, r, opened, at) =
      decrypt_entries-listed (env_ciphertext b inp.env) f (sort_texts (keys entries)) [] found name
        e (rw (any-sort_texts (text_eq name) (keys entries), any-keys name entries, there) refl) in
    (ct, pt, r, opener-eq-ok age b inp f ct pt level op opened, at)

-- A Secret is built only from a section of a per-env bundle that is there and whose cluster label,
-- if it has one, is this cluster; it is assembled from exactly the section's names, and the value of
-- each is what its ciphertext opens to for the bundle's project. A single entry that does not
-- decode or open means that no Secret is built.
pub build_secret_for_bundle-Built :
    (age : Age) (b : SealedBundle) (svc : Text) (inp : MaterializeInput) (s : K8sSecret)
    → build_secret_for_bundle age b svc inp ≡ ok s
    → Built age b svc inp s
unfolding build_secret_for_bundle
build_secret_for_bundle-Built age b svc inp s e =
    let (per, e₁) = refuse_if-eq-ok (not (is_per_env_version b.version)) not_per_env _ _ e in
    let (sec, there, e₂) = require-bind-eq-ok (lookup inp.env (or_nil b.envs)) absent_env _ _ e₁ in
    let (same, e₃) =
      refuse_if-eq-ok (not (is_empty sec.cluster) && not (text_eq sec.cluster inp.cluster))
        (wrong_cluster sec.cluster inp.cluster) _ _ e₂ in
    let (f, op, e₄) = >>=-eq-ok (opener age b inp) _ e₃ in
    let (found, dec, assembled) =
      >>=-eq-ok
        (decrypt_entries (env_ciphertext b inp.env) f (sort_texts (keys (or_nil sec.entries))) []) _
        e₄ in
    record {
      sec = sec;
      found = found;
      present = there;
      per_env = ground arith;
      same_cluster = same;
      values = λ name.
          listed_or_other age b inp f (or_nil sec.entries) found name
            (lookup name (or_nil sec.entries)) op dec refl;
      assembled = assembled;
    }
