-- ===== src/Crypto/Open.antt =====
-- crypto.go and v4.go: opening. The verifying functions zeroize the identity that they were given,
-- so each returns the caller's buffer beside its result.
use gitseal.Prelude.{
  not, [], ◌∷◌, Text, ℤ, pos, leb_ℤ, eqb_ℤ, text_eq, is_empty, Result, ok, ◌>>=◌, ◌>>◌, refuse_if,
  require,
}
use gitseal.Strconv.{cut_blank_line}
use gitseal.Age.{Age}
use gitseal.Crypto.Errors.{
  Error, bad_identity, decrypt_failed, no_separator, missing_project_id, project_id_mismatch,
  missing_recipient, recipient_mismatch, no_numeric_id,
}
use gitseal.Crypto.Headers.{parse_headers, parse_headers_v4}

unfoldable pub zeroize : Text → Text
zeroize [] = []
zeroize (c ∷ s) = 0 ∷ zeroize s

module _ (age : Age) where
  unfoldable pub decrypt_envelope : Text → Text → Result Error (Text × Text)
  decrypt_envelope ciphertext identity = do
    id ← require (age.parse_identity identity) bad_identity
    env ← require (age.decrypt id ciphertext) decrypt_failed
    require (cut_blank_line env) no_separator

  -- the body of UnsealVerified, without the deferred zeroize
  unfoldable pub open_verified : Text → Text → ℤ → Result Error (Text × ℤ)
  open_verified ciphertext identity want = do
    (header, body) ← decrypt_envelope ciphertext identity
    found ← parse_headers header
    refuse_if (leb_ℤ found.id (pos 0)) missing_project_id
    refuse_if (not (eqb_ℤ found.id want)) (project_id_mismatch found.id want)
    ok (body, found.level)

  unfoldable pub unseal_verified : Text → Text → ℤ → Result Error (Text × ℤ) × Text
  unfolding open_verified zeroize
  unseal_verified ciphertext identity want =
      (open_verified ciphertext identity want, zeroize identity)

  unfoldable pub unseal : Text → Text → ℤ → Result Error Text × Text
  unfolding unseal_verified
  unseal ciphertext identity want =
      let (result, wiped) = unseal_verified ciphertext identity want in
      (result >>= λ (plaintext, level). ok plaintext, wiped)

  unfoldable pub embedded_project_id : Text → Text → Result Error ℤ
  embedded_project_id ciphertext identity = do
    (header, body) ← decrypt_envelope ciphertext identity
    found ← parse_headers header
    refuse_if (leb_ℤ found.id (pos 0)) no_numeric_id
    ok found.id

  unfoldable pub open_verified_by_key : Text → Text → Text → Result Error (Text × ℤ)
  open_verified_by_key ciphertext identity want = do
    (header, body) ← decrypt_envelope ciphertext identity
    found ← parse_headers_v4 age.parse_recipient header
    refuse_if (is_empty found.id) missing_recipient
    refuse_if (not (text_eq found.id want)) (recipient_mismatch found.id want)
    ok (body, found.level)

  unfoldable pub unseal_verified_by_key : Text → Text → Text → Result Error (Text × ℤ) × Text
  unfolding open_verified_by_key zeroize
  unseal_verified_by_key ciphertext identity want =
      (open_verified_by_key ciphertext identity want, zeroize identity)
