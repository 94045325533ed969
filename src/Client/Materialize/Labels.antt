-- ===== src/Client/Materialize/Labels.antt =====
-- materialize.go: the names of what is built, byte by byte.
use gitseal.Prelude.{
  ℕ, ◌≡◌, refl, true, [], ◌∷◌, Text, text_key, text_eq, ok, arith, ◌⊎◌, ◌≤◌, All, all, length,
}
use gitseal.Age.{Age}
use gitseal.Client.Bundle.{SealedBundle}
use gitseal.Client.Materialize.{
  MaterializeInput, K8sSecret, valid_dns_label, docker_secret_svc, is_label_byte,
  starts_alphanumeric, ends_alphanumeric, dns_1123_label, build_secret_for_bundle,
}
use gitseal.Client.Materialize.Laws.{
  build_secret_for_bundle-Built, assemble_secret-eq-ok, secret_of-labels,
}

-- A lowercase letter, a digit or a hyphen.
abbrev pub IsLabelByte : ℕ → Type 0
IsLabelByte c = ((b'a' ≤ c) × (c ≤ b'z')) ⊎ (((b'0' ≤ c) × (c ≤ b'9')) ⊎ (c ≡ b'-'))

-- A DNS-1123 label, by its bytes.
abbrev pub IsDnsLabel : Text → Type 0
IsDnsLabel s =
    (1 ≤ length s)
    × (length s ≤ 63)
    × All IsLabelByte s
    × (starts_alphanumeric s ≡ true)
    × (ends_alphanumeric s ≡ true)

label_byte : (c : ℕ) → is_label_byte c ≡ true → IsLabelByte c
label_byte c h = ground arith

label_bytes : (s : Text) → all is_label_byte s ≡ true → All IsLabelByte s
label_bytes [] h = tt
label_bytes (c ∷ s) h = (label_byte c (ground arith), label_bytes s (ground arith))

valid_dns_label-IsDnsLabel : (s : Text) → valid_dns_label s ≡ true → IsDnsLabel s
unfolding valid_dns_label dns_1123_label
valid_dns_label-IsDnsLabel s h =
    (ground arith, ground arith, label_bytes s (ground arith), ground arith, ground arith)

-- The name and the namespace of a Secret that is built have from 1 to 63 bytes, are lowercase
-- letters, digits and hyphens only, and begin and end with a letter or a digit, whatever the service,
-- the prefix, the namespace and the bundle: neither can hold a newline or a colon.
pub build_secret_for_bundle-IsDnsLabel :
    (age : Age) (b : SealedBundle) (svc : Text) (inp : MaterializeInput) (s : K8sSecret)
    → build_secret_for_bundle age b svc inp ≡ ok s
    → IsDnsLabel s.name × IsDnsLabel s.namespace
build_secret_for_bundle-IsDnsLabel age b svc inp s e =
    let built = build_secret_for_bundle-Built age b svc inp s e in
    let (v, n, shaped) =
      assemble_secret-eq-ok svc inp.namespace inp.secret_prefix built.found s built.assembled in
    let (name, namespace) =
      secret_of-labels (text_eq svc docker_secret_svc) svc inp.namespace inp.secret_prefix
        built.found s refl v n shaped in
    (valid_dns_label-IsDnsLabel s.name name, valid_dns_label-IsDnsLabel s.namespace namespace)
