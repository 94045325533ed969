-- ===== src/Client/Authz/Sig/Laws.antt =====
-- authz_sig.go and sign.go: when a section is accepted, and what keeps the two versions apart.
use gitseal.Prelude.{
  ◌≡◌, ◌≢◌, true, not, Option, none, some, Text, ℤ, ◌≤ℤ◌, ltb_ℤ, ltb_ℤ_false, ok, refuse_if-eq-ok,
  require-bind-eq-ok, arith,
}
use gitseal.Prelude.Dict.{Dict}
use gitseal.Client.Bundle.{EnvSection, EnvSectionSig, or_nil}
use gitseal.Client.Authz.Sig.{
  SignerResolver, missing_signature, unregistered, no_level, present, verify_section,
  verify_section_authz, verify_section_authz_v4, canonical_section_bytes,
  canonical_section_bytes_v4, section_bytes, section_bytes_v4,
}

-- The section is signed, over the message, by a registered signer whose live level reaches the minimum.
pub record SignedBy (msg : Text) (sec : EnvSection) (min_level : ℤ) (r : SignerResolver)
    : Type 0 where
  pub signature : EnvSectionSig
  pub key : Text
  pub level : ℤ
  pub carried : sec.sig ≡ some signature
  pub registered : r.pub_key_for signature.by ≡ some key
  pub verified : r.verify key msg signature.sig ≡ true
  pub live : r.live_level_for signature.by ≡ some level
  pub enough : min_level ≤ℤ level

present-some : (o : Option EnvSectionSig) (s : EnvSectionSig) → present o ≡ some s → o ≡ some s
present-some none s h = cc
present-some (some s') s h = ground arith

verify_section-SignedBy :
    (msg : Text) (sec : EnvSection) (min_level : ℤ) (r : SignerResolver)
    → verify_section msg sec min_level r ≡ ok tt
    → SignedBy msg sec min_level r
unfolding verify_section
verify_section-SignedBy msg sec min_level r h =
    let (s, carried, h₁) = require-bind-eq-ok (present sec.sig) missing_signature _ _ h in
    let (key, registered, h₂) = require-bind-eq-ok (r.pub_key_for s.by) unregistered _ _ h₁ in
    let (verified, h₃) = refuse_if-eq-ok (not (r.verify key msg s.sig)) _ _ _ h₂ in
    let (level, live, h₄) = require-bind-eq-ok (r.live_level_for s.by) no_level _ _ h₃ in
    let (enough, _) = refuse_if-eq-ok (ltb_ℤ level min_level) _ _ _ h₄ in
    record {
      signature = s;
      key = key;
      level = level;
      carried = present-some sec.sig s carried;
      registered = registered;
      verified = ground arith;
      live = live;
      enough = ltb_ℤ_false level min_level enough;
    }

-- A section that the check lets through is signed over its own canonical bytes, for its project, its
-- env and its entries, by a registered signer whose live level reaches the minimum.
pub verify_section_authz-SignedBy :
    (sha256 : Text → Text) (project_id : ℤ) (env : Text) (sec : EnvSection) (min_level : ℤ)
    (r : SignerResolver)
    → verify_section_authz sha256 project_id env sec min_level r ≡ ok tt
    → SignedBy (canonical_section_bytes sha256 project_id env (or_nil sec.entries)) sec min_level r
unfolding verify_section_authz
verify_section_authz-SignedBy sha256 project_id env sec min_level r h =
    verify_section-SignedBy (canonical_section_bytes sha256 project_id env (or_nil sec.entries)) sec
      min_level r h

-- The same of a v4 section, over the bytes that bind the project's public key.
pub verify_section_authz_v4-SignedBy :
    (sha256 : Text → Text) (pubkey env : Text) (sec : EnvSection) (min_level : ℤ)
    (r : SignerResolver)
    → verify_section_authz_v4 sha256 pubkey env sec min_level r ≡ ok tt
    → SignedBy (canonical_section_bytes_v4 sha256 pubkey env (or_nil sec.entries)) sec min_level r
unfolding verify_section_authz_v4
verify_section_authz_v4-SignedBy sha256 pubkey env sec min_level r h =
    verify_section-SignedBy (canonical_section_bytes_v4 sha256 pubkey env (or_nil sec.entries)) sec
      min_level r h

-- No section of v3 has the bytes of a section of v4, whatever the projects, the envs and the entries.
pub section_bytes-apart :
    (project_id : ℤ) (pubkey env env' : Text) (d d' : Dict Text Text)
    → section_bytes project_id env d ≢ section_bytes_v4 pubkey env' d'
unfolding section_bytes section_bytes_v4
section_bytes-apart project_id pubkey env env' d d' h = ground arith
