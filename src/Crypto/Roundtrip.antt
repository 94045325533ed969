-- ===== src/Crypto/Roundtrip.antt =====
-- Opening what was sealed: the round trips of both envelope formats, and what a hostile name can do.
use gitseal.Prelude.{
  ℕ, ◌≡◌, ◌≤◌, refl, true, false, some, List, [], ◌∷◌, ◌++◌, Text, ℤ, pos, ◌<◌, arith, ap, ◌∙◌,
  All-append, ok, err, is_empty, eqb_ℤ, eqb_ℤ_iff, leb_ℤ, if◌then◌else◌, require, suc,
  require-bind-eq-ok, >>=-eq-ok,
}
use gitseal.Strconv.{
  IsLine, newline, max_int64, format_int, format_int-IsLine, parse_int-format_int,
  trim_space-format_int, split_lines, cut_blank_line,
}
use gitseal.Age.{Age, AgeLaws, listed}
use gitseal.Crypto.Errors.{no_separator, bad_recipient, encrypt_failed, project_id_mismatch}
use gitseal.Crypto.Headers.{env_header_prefix, level_header_prefix, parse_project_id, parse_headers}
use gitseal.Crypto.Headers.Laws.{read_lines_two, parse_level_line-format_int}
use gitseal.Crypto.Frame.{name_part, name_part-cut, framed-cut, name_part-IsLine, split_lines-block}
use gitseal.Crypto.Seal.{envelope, seal_multi, parse_recipients}
use gitseal.Crypto.Open.{decrypt_envelope, open_verified}

pub positive : (p : ℕ) → 0 < p → leb_ℤ (pos p) (pos 0) ≡ false
positive p h = ground arith

-- What opening makes of a header block that parses.
open_verified_lem :
    (age : Age) (c identity header body : Text) (p n : ℕ) (want : ℤ)
    → 0 < p
    → decrypt_envelope age c identity ≡ ok (header, body)
    → parse_headers header
      ≡ ok (record { id = pos p; level = pos n; got_id = true; got_level = true })
    → open_verified age c identity want
      ≡ (if eqb_ℤ (pos p) want then ok (body, pos n) else err (project_id_mismatch (pos p) want))
unfolding open_verified
open_verified_lem age c identity header body p n want hp d h =
    rw (d, h, positive p hp) (ground arith)

-- What the loops find in a written block, whatever follows the two first lines.
parse_headers-block :
    (p n : ℕ) (rest : Text)
    → p ≤ max_int64
    → 30 ≤ n
    → n ≤ max_int64
    → parse_headers (
        env_header_prefix
        ++ (format_int (pos p)
            ++ newline ∷ (level_header_prefix ++ (format_int (pos n) ++ newline ∷ rest))))
      ≡ ok (record { id = pos p; level = pos n; got_id = true; got_level = true })
unfolding parse_headers
parse_headers-block p n rest fits low high =
    rw
      (split_lines-block env_header_prefix (format_int (pos p)) n rest
        (All-append _ env_header_prefix (format_int (pos p)) (omega arith) (format_int-IsLine p)))
      (read_lines_two env_header_prefix parse_project_id (format_int (pos p)) (format_int (pos n))
        (split_lines rest) _ (pos p) (pos n) refl refl
        (rw (trim_space-format_int p, parse_int-format_int p fits))
        (parse_level_line-format_int n low high))

module _ (age : Age) (laws : AgeLaws age) where
  -- What decrypting an envelope with an identity of one of its recipients gives.
  pub decrypt-envelope :
      (coins : ℕ) (rs : List Text) (env c identity id : Text)
      → age.encrypt coins rs env ≡ some c
      → age.parse_identity identity ≡ some id
      → listed (age.recipient_of id) rs ≡ true
      → decrypt_envelope age c identity ≡ require (cut_blank_line env) no_separator
  unfolding decrypt_envelope
  decrypt-envelope coins rs env c identity id e i m = rw (i, laws.opens coins rs env c id e m)

-- Parsing keeps the number of recipients, so a list that is not empty stays so.
pub parse_recipients-ne-nil :
    (age : Age) (i : ℕ) (recipients rs : List Text)
    → parse_recipients age i recipients ≡ ok rs
    → is_empty rs ≡ is_empty recipients
unfolding parse_recipients
parse_recipients-ne-nil age i [] rs h = ground arith
parse_recipients-ne-nil age i (r ∷ recipients) rs h =
    let (p, _, h') = require-bind-eq-ok (age.parse_recipient r) (bad_recipient i) _ rs h in
    let (rest, _, h'') = >>=-eq-ok (parse_recipients age (suc i) recipients) _ h' in ground arith

module _ (age : Age) (laws : AgeLaws age) where
  -- What sealing to many does once its guards are passed.
  pub seal_multi_lem :
      (coins : ℕ) (plaintext : Text) (recipients rs : List Text) (p : ℕ) (name : Text) (n : ℕ)
      → 0 < p
      → 0 < n
      → is_empty recipients ≡ false
      → parse_recipients age 0 recipients ≡ ok rs
      → seal_multi age coins plaintext recipients (pos p) name (pos n)
        ≡ require (age.encrypt coins rs (envelope plaintext (pos p) name (pos n))) encrypt_failed
  unfolding seal_multi
  seal_multi_lem coins plaintext recipients rs p name n hp hn ne parsed =
      rw (positive p hp, positive n hn, ne, parsed)

  -- Opening a file whose envelope was written for project p: the name, whatever it holds, changes
  -- neither the level nor the project that are read.
  pub open_verified-envelope :
      (coins : ℕ) (rs : List Text) (plaintext name c identity id : Text) (p n : ℕ) (want : ℤ)
      (r : Text × Text)
      → 0 < p
      → p ≤ max_int64
      → 30 ≤ n
      → n ≤ max_int64
      → age.encrypt coins rs (envelope plaintext (pos p) name (pos n)) ≡ some c
      → age.parse_identity identity ≡ some id
      → listed (age.recipient_of id) rs ≡ true
      → cut_blank_line (name_part name plaintext) ≡ some r
      → open_verified age c identity want
        ≡ (if eqb_ℤ (pos p) want then ok (r.1, pos n) else err (project_id_mismatch (pos p) want))
  open_verified-envelope coins rs plaintext name c identity id p n want r hp fits low high e i m
        cut =
      let whole =
        framed-cut env_header_prefix (format_int (pos p)) n name plaintext r
          (All-append _ env_header_prefix (format_int (pos p)) (omega arith) (format_int-IsLine p))
          cut in
      let dec =
        decrypt-envelope age laws coins rs (envelope plaintext (pos p) name (pos n)) c identity id e
          i m in
      open_verified_lem age c identity _ r.1 p n want hp
        (dec ∙ ap (λ o. require o no_separator) whole) (parse_headers-block p n r.0 fits low high)

  -- Whatever the name holds, newlines and forged header lines included: sealing for a project id from 1
  -- to the largest int64, with a level from 30 to the largest int64 and at least one recipient, all of
  -- which age parses, succeeds; and for the identity of any of the recipients the file opens for that
  -- project and with that level, and for every other project is refused as a mismatch. The
  -- plaintext that is opened begins behind the first blank line from the header line of the name on.
  pub open_verified-any_name :
      (coins : ℕ) (plaintext : Text) (recipients rs : List Text) (p : ℕ) (name : Text) (n : ℕ)
      (identity id : Text)
      → 0 < p
      → p ≤ max_int64
      → 30 ≤ n
      → n ≤ max_int64
      → is_empty recipients ≡ false
      → parse_recipients age 0 recipients ≡ ok rs
      → age.parse_identity identity ≡ some id
      → listed (age.recipient_of id) rs ≡ true
      → (c : Text) × (r : Text × Text) × (seal_multi age coins plaintext recipients
            (pos p)
            name
            (pos n)
          ≡ ok c)
        × (cut_blank_line (name_part name plaintext) ≡ some r)
        × ((want : ℤ)
            → open_verified age c identity want ≡ (
                if eqb_ℤ (pos p) want
                then ok (r.1, pos n)
                else err (project_id_mismatch (pos p) want)))
  open_verified-any_name coins plaintext recipients rs p name n identity id hp fits low high ne
        parsed i m =
      let ne' = parse_recipients-ne-nil age 0 recipients rs parsed ∙ ne in
      let (c, e) = laws.encrypts coins rs (envelope plaintext (pos p) name (pos n)) ne' in
      let (r, cut) = name_part-cut name plaintext in
      (
        c,
        r,
        rw (seal_multi_lem coins plaintext recipients rs p name n hp (omega arith) ne parsed, e),
        cut,
        λ want.
            open_verified-envelope coins rs plaintext name c identity id p n want r hp fits low high
              e i m cut,
      )

  -- Sealing for a project id from 1 to the largest int64, with a level from 30 to the largest int64, a
  -- name of one line and at least one recipient, all of which age parses, succeeds; and the identity of
  -- any of the recipients opens the file for that project to the plaintext and level.
  pub open_verified-seal_multi :
      (coins : ℕ) (plaintext : Text) (recipients rs : List Text) (p : ℕ) (name : Text) (n : ℕ)
      (identity id : Text)
      → 0 < p
      → p ≤ max_int64
      → 30 ≤ n
      → n ≤ max_int64
      → IsLine name
      → is_empty recipients ≡ false
      → parse_recipients age 0 recipients ≡ ok rs
      → age.parse_identity identity ≡ some id
      → listed (age.recipient_of id) rs ≡ true
      → (c : Text) × (seal_multi age coins plaintext recipients (pos p) name (pos n) ≡ ok c)
        × (open_verified age c identity (pos p) ≡ ok (plaintext, pos n))
  open_verified-seal_multi coins plaintext recipients rs p name n identity id hp fits low high line
        ne parsed i m =
      let (c, r, sealed, cut, opened) =
        open_verified-any_name coins plaintext recipients rs p name n identity id hp fits low high
          ne parsed i m in
      (
        c,
        sealed,
        opened (pos p)
            ∙ ground (arith, eqb_ℤ_iff (pos p) (pos p), cut, name_part-IsLine name plaintext line),
      )
