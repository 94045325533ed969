-- ===== src/Crypto/RoundtripV4.antt =====
-- The round trip of the v4 envelope, whose discriminator is the project's public key.
use gitseal.Prelude.{
  ℕ, ◌≡◌, ◌≤◌, refl, true, false, some, List, ◌∷◌, ◌++◌, Text, pos, ◌<◌, arith, ap, ◌∙◌, All-append,
  ok, err, is_empty, text_eq, text_eq_refl, if◌then◌else◌, require,
}
use gitseal.Strconv.{
  IsLine, newline, max_int64, trim_space-IsTrimmed, IsSolid-IsTrimmed, IsSolid-IsLine, format_int,
  split_lines, cut_blank_line,
}
use gitseal.Age.{Age, AgeLaws, listed}
use gitseal.Crypto.Errors.{no_separator, encrypt_failed, recipient_mismatch}
use gitseal.Crypto.Headers.{
  level_header_prefix, recipient_header_prefix, parse_pubkey, parse_headers_v4,
}
use gitseal.Crypto.Headers.Laws.{read_lines_two, parse_level_line-format_int}
use gitseal.Crypto.Frame.{name_part, name_part-cut, framed-cut, name_part-IsLine, split_lines-block}
use gitseal.Crypto.Seal.{seal_multi_v4, parse_recipients}
use gitseal.Crypto.Open.{decrypt_envelope, open_verified_by_key}
use gitseal.Crypto.Roundtrip.{decrypt-envelope, parse_recipients-ne-nil, positive}
use gitseal.Crypto.Seal.{envelope_v4}

-- What opening makes of a header block that parses.
open_verified_by_key_lem :
    (age : Age) (c identity header body owner : Text) (n : ℕ) (want : Text)
    → is_empty owner ≡ false
    → decrypt_envelope age c identity ≡ ok (header, body)
    → parse_headers_v4 age.parse_recipient header
      ≡ ok (record { id = owner; level = pos n; got_id = true; got_level = true })
    → open_verified_by_key age c identity want
      ≡ (if text_eq owner want then ok (body, pos n) else err (recipient_mismatch owner want))
unfolding open_verified_by_key
open_verified_by_key_lem age c identity header body owner n want ne d h =
    rw (d, h, ne) (ground arith)

module _ (age : Age) (laws : AgeLaws age) where
  parse_headers_v4-block :
      (owner parsed : Text) (n : ℕ) (rest : Text)
      → age.parse_recipient owner ≡ some parsed
      → 30 ≤ n
      → n ≤ max_int64
      → parse_headers_v4 age.parse_recipient (
          recipient_header_prefix
          ++ (owner ++ newline ∷ (level_header_prefix ++ (format_int (pos n) ++ newline ∷ rest))))
        ≡ ok (record { id = owner; level = pos n; got_id = true; got_level = true })
  unfolding parse_headers_v4
  parse_headers_v4-block owner parsed n rest e low high =
      let (_, clean) = laws.bech32 owner parsed e in
      rw
        (split_lines-block recipient_header_prefix owner n rest
          (All-append _ recipient_header_prefix owner (omega arith) (IsSolid-IsLine owner clean)))
        (read_lines_two recipient_header_prefix (parse_pubkey age.parse_recipient) owner
          (format_int (pos n)) (split_lines rest) _ owner (pos n) refl refl
          (rw (trim_space-IsTrimmed owner (IsSolid-IsTrimmed owner clean), e))
          (parse_level_line-format_int n low high))

  pub seal_multi_v4_lem :
      (coins : ℕ) (plaintext : Text) (recipients rs : List Text) (owner parsed_owner name : Text)
      (n : ℕ)
      → 0 < n
      → age.parse_recipient owner ≡ some parsed_owner
      → is_empty recipients ≡ false
      → parse_recipients age 0 recipients ≡ ok rs
      → seal_multi_v4 age coins plaintext recipients owner name (pos n)
        ≡ require (age.encrypt coins rs (envelope_v4 plaintext owner name (pos n))) encrypt_failed
  unfolding seal_multi_v4
  seal_multi_v4_lem coins plaintext recipients rs owner parsed_owner name n hn o ne parsed =
      rw (positive n hn, o, ne, parsed)

  open_verified_by_key-envelope :
      (coins : ℕ) (rs : List Text) (plaintext owner parsed_owner name c identity id : Text) (n : ℕ)
      (want : Text) (r : Text × Text)
      → 30 ≤ n
      → n ≤ max_int64
      → age.parse_recipient owner ≡ some parsed_owner
      → age.encrypt coins rs (envelope_v4 plaintext owner name (pos n)) ≡ some c
      → age.parse_identity identity ≡ some id
      → listed (age.recipient_of id) rs ≡ true
      → cut_blank_line (name_part name plaintext) ≡ some r
      → open_verified_by_key age c identity want
        ≡ (if text_eq owner want then ok (r.1, pos n) else err (recipient_mismatch owner want))
  open_verified_by_key-envelope coins rs plaintext owner parsed_owner name c identity id n want r
        low high o e i m cut =
      let (filled, clean) = laws.bech32 owner parsed_owner o in
      let whole =
        framed-cut recipient_header_prefix owner n name plaintext r
          (All-append _ recipient_header_prefix owner (omega arith) (IsSolid-IsLine owner clean))
          cut in
      let dec =
        decrypt-envelope age laws coins rs (envelope_v4 plaintext owner name (pos n)) c identity id
          e i m in
      open_verified_by_key_lem age c identity _ r.1 owner n want filled
        (dec ∙ ap (λ o'. require o' no_separator) whole)
        (parse_headers_v4-block owner parsed_owner n r.0 o low high)

  -- Sealing succeeds for every name; the file opens for the owner's key only, and with level n.
  pub open_verified_by_key-any_name :
      (coins : ℕ) (plaintext : Text) (recipients rs : List Text) (owner parsed_owner name : Text)
      (n : ℕ) (identity id : Text)
      → 30 ≤ n
      → n ≤ max_int64
      → age.parse_recipient owner ≡ some parsed_owner
      → is_empty recipients ≡ false
      → parse_recipients age 0 recipients ≡ ok rs
      → age.parse_identity identity ≡ some id
      → listed (age.recipient_of id) rs ≡ true
      → (c : Text) × (r : Text × Text) × (seal_multi_v4 age coins plaintext recipients owner name
            (pos n)
          ≡ ok c)
        × (cut_blank_line (name_part name plaintext) ≡ some r)
        × ((want : Text)
            → open_verified_by_key age c identity want ≡ (
                if text_eq owner want
                then ok (r.1, pos n)
                else err (recipient_mismatch owner want)))
  open_verified_by_key-any_name coins plaintext recipients rs owner parsed_owner name n identity id
        low high o ne parsed i m =
      let ne' = parse_recipients-ne-nil age 0 recipients rs parsed ∙ ne in
      let (c, e) = laws.encrypts coins rs (envelope_v4 plaintext owner name (pos n)) ne' in
      let (r, cut) = name_part-cut name plaintext in
      (
        c,
        r,
        rw (
          seal_multi_v4_lem coins plaintext recipients rs owner parsed_owner name n (omega arith) o
              ne parsed,
          e,
        ),
        cut,
        λ want.
            open_verified_by_key-envelope coins rs plaintext owner parsed_owner name c identity id n
              want r low high o e i m cut,
      )

  -- Sealing for an owner's key that age parses, with a level from 30 to the largest int64, a name of one
  -- line and at least one recipient, all of which age parses, succeeds; and the identity of any of the
  -- recipients opens the file for that key to the plaintext and level.
  pub open_verified_by_key-seal_multi_v4 :
      (coins : ℕ) (plaintext : Text) (recipients rs : List Text) (owner parsed_owner name : Text)
      (n : ℕ) (identity id : Text)
      → 30 ≤ n
      → n ≤ max_int64
      → IsLine name
      → age.parse_recipient owner ≡ some parsed_owner
      → is_empty recipients ≡ false
      → parse_recipients age 0 recipients ≡ ok rs
      → age.parse_identity identity ≡ some id
      → listed (age.recipient_of id) rs ≡ true
      → (c : Text) × (seal_multi_v4 age coins plaintext recipients owner name (pos n) ≡ ok c)
        × (open_verified_by_key age c identity owner ≡ ok (plaintext, pos n))
  open_verified_by_key-seal_multi_v4 coins plaintext recipients rs owner parsed_owner name n
        identity id low high line o ne parsed i m =
      let (c, r, sealed, cut, opened) =
        open_verified_by_key-any_name coins plaintext recipients rs owner parsed_owner name n
          identity id low high o ne parsed i m in
      (
        c,
        sealed,
        opened owner
            ∙ ground (arith, text_eq_refl owner, cut, name_part-IsLine name plaintext line),
      )
