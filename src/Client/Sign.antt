-- ===== src/Client/Sign.antt =====
-- sign_bundle.go and sealedbundle_v4.go: signing the sections of a bundle. The SSH key is a parameter.
pub mod Laws
use gitseal.Prelude.{
  not, Option, none, some, List, [], ◌∷◌, Text, text, text_eq, ℤ, Result, ok, ◌>>=◌, ◌>>◌,
  refuse_if, require,
}
use gitseal.Prelude.Dict.{Dict}
use gitseal.Client.Bundle.{EnvSection, SealedBundle, or_nil}
use gitseal.Client.Authz.Sig.{canonical_section_bytes, canonical_section_bytes_v4}

-- SSHSigner: its Fingerprint, and its Sign, `none` where the key fails
pub record SshSigner : Type 0 where
  pub fingerprint : Text
  pub sign : Text → Option Text

pub data SignError : Type 0 where
  other_version : Text → SignError
  sign_failed : Text → SignError

abbrev pub with_sig : EnvSection → Text → Text → EnvSection
with_sig sec fp sig = record sec { sig = some (record { by = fp; sig = sig }) }

-- The loop over the sections; `msg` is what is signed.
unfoldable pub sign_sections :
    (Text → EnvSection → Text)
    → SshSigner
    → Dict Text EnvSection
    → Result SignError (Dict Text EnvSection)
sign_sections msg signer [] = ok []
sign_sections msg signer ((env, sec) ∷ envs) = do
  sig ← require (signer.sign (msg env sec)) (sign_failed env)
  rest ← sign_sections msg signer envs
  ok ((env, with_sig sec signer.fingerprint sig) ∷ rest)

module _ (sha256 : Text → Text) where
  abbrev pub message : ℤ → Text → EnvSection → Text
  message project_id env sec = canonical_section_bytes sha256 project_id env (or_nil sec.entries)

  abbrev pub message_v4 : Text → Text → EnvSection → Text
  message_v4 pubkey env sec = canonical_section_bytes_v4 sha256 pubkey env (or_nil sec.entries)

  -- SignBundleFile: the bundle that is written and the fingerprint
  unfoldable pub sign_bundle_file :
      SealedBundle → ℤ → SshSigner → Result SignError (SealedBundle × Text)
  unfolding sign_sections
  sign_bundle_file b project_id signer = do
    refuse_if (not (text_eq b.version (text "v3"))) (other_version b.version)
    envs ← sign_sections (message project_id) signer (or_nil b.envs)
    ok (record b { envs = some envs }, signer.fingerprint)

  -- SignBundleFileV4
  unfoldable pub sign_bundle_file_v4 :
      SealedBundle → Text → SshSigner → Result SignError (SealedBundle × Text)
  unfolding sign_sections
  sign_bundle_file_v4 b pubkey signer = do
    refuse_if (not (text_eq b.version (text "v4"))) (other_version b.version)
    envs ← sign_sections (message_v4 pubkey) signer (or_nil b.envs)
    ok (record b { envs = some envs }, signer.fingerprint)
