-- ===== src/Crypto/Errors.antt =====
-- The errors of internal/crypto, a constructor for each message.
use gitseal.Prelude.{ℕ, ℤ, Text}

pub data Error : Type 0 where
  invalid_project_id invalid_min_level : ℤ → Error
  no_recipients encrypt_failed : Error
  bad_owner_pubkey : Error
  bad_recipient : ℕ → Error
  bad_identity decrypt_failed no_separator : Error
  bad_project_id_header bad_level_header bad_recipient_header : Error
  level_below_minimum : ℤ → Error
  missing_project_id missing_recipient no_numeric_id : Error
  project_id_mismatch : ℤ → ℤ → Error
  recipient_mismatch : Text → Text → Error
  bad_kek_length : ℕ → Error
  wrapped_too_short unwrap_failed : Error
  bad_age_header no_stanzas : Error
