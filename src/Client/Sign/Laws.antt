-- ===== src/Client/Sign/Laws.antt =====
-- sign_bundle.go with authz_sig.go: what was signed is accepted.
use gitseal.Prelude.{
  ◌≡◌, refl, Bool, true, false, not, some, [], ◌∷◌, Text, text, text_key, text_eq, text_eq_iff, ℤ,
  ltb_ℤ, is_empty, if◌then◌else◌, ok, ap, sym, >>=-eq-ok, require-bind-eq-ok, refuse_if-eq-ok,
  ok-inj,
}
use gitseal.Prelude.Dict.{Dict, lookup}
use gitseal.Client.Bundle.{EnvSection, SealedBundle, or_nil}
use gitseal.Client.Authz.Sig.{SignerResolver, verify_section, verify_section_authz_v4}
use gitseal.Client.Sign.{
  SshSigner, other_version, sign_failed, with_sig, sign_sections, message_v4, sign_bundle_file_v4,
}

module _ (msg : Text → EnvSection → Text) (signer : SshSigner) where
  -- A signed section is the section that was there, with a signature over its message.
  sign_sections-lookup :
      (envs out : Dict Text EnvSection) (env : Text) (sec : EnvSection)
      → sign_sections msg signer envs ≡ ok out
      → lookup env envs ≡ some sec
      → (sig : Text) × (signer.sign (msg env sec) ≡ some sig)
        × (lookup env out ≡ some (with_sig sec signer.fingerprint sig))
  unfolding sign_sections lookup
  sign_sections-lookup [] out env sec e found = cc
  sign_sections-lookup ((v, s) ∷ envs) out env sec e found =
      let (sig, signed, e₁) = require-bind-eq-ok (signer.sign (msg v s)) (sign_failed v) _ _ e in
      let (rest, walked, e₂) = >>=-eq-ok (sign_sections msg signer envs) _ e₁ in
      rw (sym (ok-inj e₂)) (
        at_env (text_eq v env) refl sig rest signed (sign_sections-lookup envs rest env sec walked)
          found)
    where
      at_env :
          (b : Bool)
          → text_eq v env ≡ b
          → (sig : Text) (rest : Dict Text EnvSection) → signer.sign (msg v s) ≡ some sig
          → (lookup env envs ≡ some sec
              → (sig : Text) × (signer.sign (msg env sec) ≡ some sig)
                × (lookup env rest ≡ some (with_sig sec signer.fingerprint sig)))
          → (if b then some s else lookup env envs) ≡ some sec
          → (sig' : Text) × (signer.sign (msg env sec) ≡ some sig')
            × ((if b then some (with_sig s signer.fingerprint sig) else lookup env rest)
                ≡ some (with_sig sec signer.fingerprint sig'))
      at_env true t sig rest signed ih h =
          let same : s ≡ sec = cc in
          let here : v ≡ env = (text_eq_iff v env).0 t in
          (
            sig,
            rw (sym same, sym here) signed,
            ap (λ (x : EnvSection). some (with_sig x signer.fingerprint sig)) same,
          )
      at_env false t sig rest signed ih h = ih h

-- A signature by a registered key whose level suffices is accepted.
verify_section-with_sig :
    (msg key sig : Text) (sec : EnvSection) (signer : SshSigner) (min_level level : ℤ)
    (r : SignerResolver)
    → is_empty signer.fingerprint ≡ false
    → is_empty sig ≡ false
    → r.pub_key_for signer.fingerprint ≡ some key
    → r.verify key msg sig ≡ true
    → r.live_level_for signer.fingerprint ≡ some level
    → ltb_ℤ level min_level ≡ false
    → verify_section msg (with_sig sec signer.fingerprint sig) min_level r ≡ ok tt
unfolding verify_section
verify_section-with_sig msg key sig sec signer min_level level r f s k v l e =
    rw (s, f, k, v, l, e) refl

module _ (sha256 : Text → Text) where
  -- Each section of a v4 bundle that was signed is accepted by the gate's check for the same project
  -- key, with its entries unchanged, when the signer is registered with a key for which the
  -- signatures verify, and its live level is not below the minimum.
  pub verify_section_authz_v4-sign_bundle_file_v4 :
      (b signed : SealedBundle) (pubkey fp env key : Text) (signer : SshSigner) (sec : EnvSection)
      (min_level level : ℤ) (r : SignerResolver)
      → sign_bundle_file_v4 sha256 b pubkey signer ≡ ok (signed, fp)
      → lookup env (or_nil b.envs) ≡ some sec
      → is_empty signer.fingerprint ≡ false
      → ((m sig : Text)
          → signer.sign m ≡ some sig
          → (r.verify key m sig ≡ true) × (is_empty sig ≡ false))
      → r.pub_key_for signer.fingerprint ≡ some key
      → r.live_level_for signer.fingerprint ≡ some level
      → ltb_ℤ level min_level ≡ false
      → (out : EnvSection) × (lookup env (or_nil signed.envs) ≡ some out)
        × (out.entries ≡ sec.entries)
        × (verify_section_authz_v4 sha256 pubkey env out min_level r ≡ ok tt)
  unfolding sign_bundle_file_v4 verify_section_authz_v4
  verify_section_authz_v4-sign_bundle_file_v4 b signed pubkey fp env key signer sec min_level level
        r e found f verifies k l enough =
      let (_, e₁) =
        refuse_if-eq-ok (not (text_eq b.version (text "v4"))) (other_version b.version) _ _ e in
      let (envs, walked, e₂) =
        >>=-eq-ok (sign_sections (message_v4 sha256 pubkey) signer (or_nil b.envs)) _ e₁ in
      let (sig, s, at) =
        sign_sections-lookup (message_v4 sha256 pubkey) signer (or_nil b.envs) envs env sec walked
          found in
      let (v, ne) = verifies (message_v4 sha256 pubkey env sec) sig s in
      let same : record b { envs = some envs } ≡ signed =
        ap (λ (p : SealedBundle × Text). p.0) (ok-inj e₂) in
      (
        with_sig sec signer.fingerprint sig,
        rw (sym same) at,
        refl,
        verify_section-with_sig (message_v4 sha256 pubkey env sec) key sig sec signer min_level
            level r f ne k v l enough,
      )
