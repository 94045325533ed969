-- ===== src/Crypto/Seal.antt =====
-- crypto.go and v4.go: sealing.
use gitseal.Prelude.{
  ℕ, suc, List, [], ◌∷◌, ◌++◌, Text, ℤ, pos, leb_ℤ, is_empty, Result, ok, ◌>>=◌, ◌>>◌, refuse_if,
  require,
}
use gitseal.Strconv.{format_int}
use gitseal.Age.{Age}
use gitseal.Crypto.Errors.{
  Error, invalid_project_id, invalid_min_level, no_recipients, encrypt_failed, bad_owner_pubkey,
  bad_recipient,
}
use gitseal.Crypto.Headers.{
  env_header_prefix, level_header_prefix, recipient_header_prefix, name_header_prefix,
  default_min_access_level,
}

abbrev pub line_end : Text
line_end = 10 ∷ []

-- What both envelope writers print behind the discriminator's line.
abbrev pub envelope_tail : ℤ → Text → Text → Text
envelope_tail min_level name plaintext =
    level_header_prefix
    ++ (format_int min_level ++ (10 ∷ (name_header_prefix ++ (name ++ (10 ∷ 10 ∷ plaintext)))))

-- The bytes that sealEnvelope writes before encryption.
abbrev pub envelope : Text → ℤ → Text → ℤ → Text
envelope plaintext project_id name min_level =
    env_header_prefix ++ (format_int project_id ++ (10 ∷ envelope_tail min_level name plaintext))

-- The bytes that sealEnvelopeV4 writes before encryption.
abbrev pub envelope_v4 : Text → Text → Text → ℤ → Text
envelope_v4 plaintext owner name min_level =
    recipient_header_prefix ++ (owner ++ (10 ∷ envelope_tail min_level name plaintext))

module _ (age : Age) where
  -- The loop that parses the recipients, with the index of the next one.
  unfoldable pub parse_recipients : ℕ → List Text → Result Error (List Text)
  parse_recipients i [] = ok []
  parse_recipients i (r ∷ rs) = require (age.parse_recipient r) (bad_recipient i) >>= λ parsed.
      parse_recipients (suc i) rs >>= λ rest. ok (parsed ∷ rest)

  -- A bytes.Buffer takes every write, so only the encryption can fail.
  unfoldable pub seal_envelope : ℕ → Text → List Text → ℤ → Text → ℤ → Result Error Text
  seal_envelope coins plaintext recipients project_id name min_level =
      require (age.encrypt coins recipients (envelope plaintext project_id name min_level))
        encrypt_failed

  unfoldable pub seal_with_level : ℕ → Text → Text → ℤ → Text → ℤ → Result Error Text
  unfolding seal_envelope
  seal_with_level coins plaintext recipient project_id name min_level = do
    refuse_if (leb_ℤ project_id (pos 0)) (invalid_project_id project_id)
    refuse_if (leb_ℤ min_level (pos 0)) (invalid_min_level min_level)
    parsed ← require (age.parse_recipient recipient) (bad_recipient 0)
    seal_envelope coins plaintext (parsed ∷ []) project_id name min_level

  unfoldable pub seal : ℕ → Text → Text → ℤ → Text → Result Error Text
  unfolding seal_with_level
  seal coins plaintext recipient project_id name =
      seal_with_level coins plaintext recipient project_id name default_min_access_level

  unfoldable pub seal_multi : ℕ → Text → List Text → ℤ → Text → ℤ → Result Error Text
  unfolding seal_envelope parse_recipients
  seal_multi coins plaintext recipients project_id name min_level = do
    refuse_if (leb_ℤ project_id (pos 0)) (invalid_project_id project_id)
    refuse_if (leb_ℤ min_level (pos 0)) (invalid_min_level min_level)
    refuse_if (is_empty recipients) no_recipients
    parsed ← parse_recipients 0 recipients
    seal_envelope coins plaintext parsed project_id name min_level

  unfoldable pub seal_envelope_v4 : ℕ → Text → List Text → Text → Text → ℤ → Result Error Text
  seal_envelope_v4 coins plaintext recipients owner name min_level =
      require (age.encrypt coins recipients (envelope_v4 plaintext owner name min_level))
        encrypt_failed

  unfoldable pub seal_multi_v4 : ℕ → Text → List Text → Text → Text → ℤ → Result Error Text
  unfolding seal_envelope_v4 parse_recipients
  seal_multi_v4 coins plaintext recipients owner name min_level = do
    refuse_if (leb_ℤ min_level (pos 0)) (invalid_min_level min_level)
    _parsed ← require (age.parse_recipient owner) bad_owner_pubkey
    refuse_if (is_empty recipients) no_recipients
    parsed ← parse_recipients 0 recipients
    seal_envelope_v4 coins plaintext parsed owner name min_level
