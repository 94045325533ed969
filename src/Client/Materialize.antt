-- ===== src/Client/Materialize.antt =====
-- materialize.go: the Secret that a bundle's section becomes in the cluster.
pub mod Laws
pub mod Labels
use gitseal.Prelude.{
  ℕ, ◌≡◌, Bool, true, false, not, ◌&&◌, ◌||◌, Option, none, some, List, [], ◌∷◌, ◌++◌, Text, text,
  text_key, text_eq, ℤ, pos, eqb_ℤ, eqb, ltb, leb, is_empty, length, all, if◌then◌else◌, Result, ok,
  err, ◌>>=◌, ◌>>◌, refuse_if, require,
}
use gitseal.Prelude.Dict.{Dict, lookup, insert, keys}
use gitseal.Prelude.Sort.{sort_texts}
use gitseal.Age.{Age}
use gitseal.Crypto.Errors.{Error}
use gitseal.Crypto.Open.{unseal_verified, unseal_verified_by_key}
use gitseal.Client.Bundle.{EnvSection, SealedBundle, or_nil, env_ciphertext, is_per_env_version}

abbrev pub is_alphanumeric : ℕ → Bool
is_alphanumeric c = (leb b'a' c && leb c b'z') || (leb b'0' c && leb c b'9')

abbrev pub is_label_byte : ℕ → Bool
is_label_byte c = is_alphanumeric c || eqb c b'-'

unfoldable pub ends_alphanumeric : Text → Bool
ends_alphanumeric [] = false
ends_alphanumeric (c ∷ []) = is_alphanumeric c
ends_alphanumeric (c ∷ d ∷ s) = ends_alphanumeric (d ∷ s)

abbrev pub starts_alphanumeric : Text → Bool
starts_alphanumeric [] = false
starts_alphanumeric (c ∷ s) = is_alphanumeric c

-- `^[a-z0-9]([-a-z0-9]*[a-z0-9])?$`
unfoldable pub dns_1123_label : Text → Bool
unfolding ends_alphanumeric
dns_1123_label s = starts_alphanumeric s && (all is_label_byte s && ends_alphanumeric s)

-- validDNSLabel
unfoldable pub valid_dns_label : Text → Bool
unfolding dns_1123_label
valid_dns_label s = if eqb (length s) 0 || ltb 63 (length s) then false else dns_1123_label s

abbrev pub docker_secret_svc : Text
docker_secret_svc = text "docker-secret"

abbrev pub docker_config_key : Text
docker_config_key = text ".dockerconfigjson"

abbrev pub docker_config_type : Text
docker_config_type = text "kubernetes.io/dockerconfigjson"

abbrev pub opaque_type : Text
opaque_type = text "Opaque"

-- MaterializeInput
pub record MaterializeInput : Type 0 where
  pub env : Text
  pub namespace : Text
  pub cluster : Text
  pub identity : Text
  pub project_id : ℤ
  pub recipient : Text
  pub secret_prefix : Text

-- K8sSecret
pub record K8sSecret : Type 0 where
  pub name : Text
  pub namespace : Text
  pub type_name : Text
  pub contents : Dict Text Text

pub data MaterializeError : Type 0 where
  not_per_env absent_env no_recipient no_project_id : MaterializeError
  wrong_cluster : Text → Text → MaterializeError
  unreadable : Text → MaterializeError
  decrypt_failed : Text → Error → MaterializeError
  invalid_service invalid_namespace invalid_name : Text → MaterializeError
  not_one_entry : ℕ → MaterializeError

-- the sole entry, whatever its name
abbrev pub sole_value : Dict Text Text → Result MaterializeError Text
sole_value ((k, v) ∷ []) = ok v
sole_value found = err (not_one_entry (length found))

-- the docker credential, or an opaque Secret with a name from the prefix and the service
abbrev pub secret_of :
    Bool → Text → Text → Text → Dict Text Text → Result MaterializeError K8sSecret
secret_of true svc namespace prefix found = do
  val ← sole_value found
  ok (record {
    name = docker_secret_svc;
    namespace = namespace;
    type_name = docker_config_type;
    contents = (docker_config_key, val) ∷ [];
  })
secret_of false svc namespace prefix found = do
  refuse_if (not (valid_dns_label (prefix ++ (svc ++ text "-app"))))
      (invalid_name (prefix ++ (svc ++ text "-app")))
  ok (record {
    name = prefix ++ (svc ++ text "-app");
    namespace = namespace;
    type_name = opaque_type;
    contents = found;
  })

-- assembleSecret
unfoldable pub assemble_secret :
    Text → Text → Text → Dict Text Text → Result MaterializeError K8sSecret
assemble_secret svc namespace prefix found = do
  refuse_if (not (valid_dns_label svc)) (invalid_service svc)
  refuse_if (not (valid_dns_label namespace)) (invalid_namespace namespace)
  secret_of (text_eq svc docker_secret_svc) svc namespace prefix found

abbrev pub plaintext_of : Text → Result Error (Text × ℤ) → Result MaterializeError Text
plaintext_of name (ok (pt, level)) = ok pt
plaintext_of name (err e) = err (decrypt_failed name e)

-- The loop over the sorted names; `read` is the ciphertext of a name, and `open` decrypts one.
unfoldable pub decrypt_entries :
    (Text → Option Text)
    → (Text → Result Error (Text × ℤ))
    → List Text
    → Dict Text Text
    → Result MaterializeError (Dict Text Text)
decrypt_entries read open_one [] found = ok found
decrypt_entries read open_one (name ∷ names) found = do
  ct ← require (read name) (unreadable name)
  pt ← plaintext_of name (open_one ct)
  decrypt_entries read open_one names (insert name pt found)

-- the id that a bundle before v4 is opened for
abbrev pub numeric_id : SealedBundle → MaterializeInput → ℤ
numeric_id b inp = if eqb_ℤ inp.project_id (pos 0) then b.project_id else inp.project_id

module _ (age : Age) where
  -- How each entry is opened. Each call is given a copy of the identity, so that wiping the copy
  -- leaves the identity for the next one.
  unfoldable pub opener :
      SealedBundle → MaterializeInput → Result MaterializeError (Text → Result Error (Text × ℤ))
  opener b inp =
      if text_eq b.version (text "v4")
      then (refuse_if (is_empty inp.recipient) no_recipient
          >> ok (λ ct. (unseal_verified_by_key age ct inp.identity inp.recipient).0))
      else (refuse_if (eqb_ℤ (numeric_id b inp) (pos 0)) no_project_id
          >> ok (λ ct. (unseal_verified age ct inp.identity (numeric_id b inp)).0))

  -- BuildSecretForBundle
  unfoldable pub build_secret_for_bundle :
      SealedBundle → Text → MaterializeInput → Result MaterializeError K8sSecret
  unfolding opener decrypt_entries assemble_secret
  build_secret_for_bundle b svc inp = do
    refuse_if (not (is_per_env_version b.version)) not_per_env
    sec ← require (lookup inp.env (or_nil b.envs)) absent_env
    refuse_if (not (is_empty sec.cluster) && not (text_eq sec.cluster inp.cluster))
        (wrong_cluster sec.cluster inp.cluster)
    open_one ← opener b inp
    found ←
        decrypt_entries (env_ciphertext b inp.env) open_one (sort_texts (keys (or_nil sec.entries)))
          []
    assemble_secret svc inp.namespace inp.secret_prefix found
