-- ===== src/Crypto/Refusals.antt =====
-- What opening refuses: levels below Developer.
use gitseal.Prelude.{
  ℕ, ◌≡◌, ◌≤◌, ◌<◌, refl, true, false, some, List, ◌∷◌, ◌++◌, Text, ℤ, pos, ◌≤ℤ◌, arith, ap, ◌∙◌,
  All-append, ok, err, is_empty, require, >>=-eq-ok,
}
use gitseal.Strconv.{
  max_int64, newline, format_int, format_int-IsLine, parse_int-format_int, trim_space-format_int,
  split_lines,
}
use gitseal.Age.{Age, AgeLaws, listed}
use gitseal.Crypto.Errors.{Error, level_below_minimum, no_separator}
use gitseal.Crypto.Headers.{
  Found, env_header_prefix, level_header_prefix, default_min_access_level, parse_project_id,
  parse_pubkey, parse_headers, parse_headers_v4, recipient_header_prefix,
}
use gitseal.Crypto.Headers.Laws.{read_lines_refused, read_lines_level, parse_level_line_low}
use gitseal.Crypto.Frame.{name_part-cut, framed-cut, split_lines-block}
use gitseal.Crypto.Seal.{envelope, seal_multi, parse_recipients}
use gitseal.Crypto.Open.{decrypt_envelope, open_verified, open_verified_by_key}
use gitseal.Crypto.Roundtrip.{decrypt-envelope, parse_recipients-ne-nil, seal_multi_lem}

parse_headers_bound :
    (header : Text) (f : Found ℤ)
    → parse_headers header ≡ ok f
    → default_min_access_level ≤ℤ f.level
unfolding parse_headers
parse_headers_bound header f h =
    read_lines_level env_header_prefix parse_project_id (split_lines header) _ f (omega arith) h

-- Whatever the file, the identity and the project: a file that opens has a level of at least Developer.
pub open_verified_bound :
    (age : Age) (c identity : Text) (want : ℤ) (plaintext : Text) (level : ℤ)
    → open_verified age c identity want ≡ ok (plaintext, level)
    → default_min_access_level ≤ℤ level
unfolding open_verified
open_verified_bound age c identity want plaintext level h =
    let ((header, body), _, h₁) = >>=-eq-ok (decrypt_envelope age c identity) _ h in
    let (found, parsed, h₂) = >>=-eq-ok (parse_headers header) _ h₁ in
    ground (arith, parse_headers_bound header found parsed)

parse_headers_v4_bound :
    (age : Age) (header : Text) (f : Found Text)
    → parse_headers_v4 age.parse_recipient header ≡ ok f
    → default_min_access_level ≤ℤ f.level
unfolding parse_headers_v4
parse_headers_v4_bound age header f h =
    read_lines_level recipient_header_prefix (parse_pubkey age.parse_recipient) (split_lines header)
      _ f (omega arith) h

-- The same of a v4 file.
pub open_verified_by_key_bound :
    (age : Age) (c identity want plaintext : Text) (level : ℤ)
    → open_verified_by_key age c identity want ≡ ok (plaintext, level)
    → default_min_access_level ≤ℤ level
unfolding open_verified_by_key
open_verified_by_key_bound age c identity want plaintext level h =
    let ((header, body), _, h₁) = >>=-eq-ok (decrypt_envelope age c identity) _ h in
    let (found, parsed, h₂) = >>=-eq-ok (parse_headers_v4 age.parse_recipient header) _ h₁ in
    ground (arith, parse_headers_v4_bound age header found parsed)

parse_headers-low :
    (p n : ℕ) (rest : Text)
    → p ≤ max_int64
    → n < 30
    → parse_headers (
        env_header_prefix
        ++ (format_int (pos p)
            ++ newline ∷ (level_header_prefix ++ (format_int (pos n) ++ newline ∷ rest))))
      ≡ err (level_below_minimum (pos n))
unfolding parse_headers
parse_headers-low p n rest fits low =
    rw
      (split_lines-block env_header_prefix (format_int (pos p)) n rest
        (All-append _ env_header_prefix (format_int (pos p)) (omega arith) (format_int-IsLine p)))
      (read_lines_refused env_header_prefix parse_project_id (format_int (pos p))
        (format_int (pos n)) (split_lines rest) _ (pos p) (level_below_minimum (pos n)) refl refl
        (rw (trim_space-format_int p, parse_int-format_int p fits)) (parse_level_line_low n low))

open_verified_refused :
    (age : Age) (c identity : Text) (want : ℤ) (header body : Text) (e : Error)
    → decrypt_envelope age c identity ≡ ok (header, body)
    → parse_headers header ≡ err e
    → open_verified age c identity want ≡ err e
unfolding open_verified
open_verified_refused age c identity want header body e d h = rw (d, h)

module _ (age : Age) (laws : AgeLaws age) where
  -- Sealing accepts a level from 1 to 29, and the file that it writes opens for nobody: the reader
  -- refuses the level.
  pub open_verified-low_level :
      (coins : ℕ) (plaintext : Text) (recipients rs : List Text) (p : ℕ) (name : Text) (n : ℕ)
      → 0 < p
      → p ≤ max_int64
      → 0 < n
      → n < 30
      → is_empty recipients ≡ false
      → parse_recipients age 0 recipients ≡ ok rs
      → (c : Text) × (seal_multi age coins plaintext recipients (pos p) name (pos n) ≡ ok c)
        × ((identity id : Text) (want : ℤ)
            → age.parse_identity identity ≡ some id
            → listed (age.recipient_of id) rs ≡ true
            → open_verified age c identity want ≡ err (level_below_minimum (pos n)))
  open_verified-low_level coins plaintext recipients rs p name n hp fits hn low ne parsed =
      let ne' = parse_recipients-ne-nil age 0 recipients rs parsed ∙ ne in
      let (c, e) = laws.encrypts coins rs (envelope plaintext (pos p) name (pos n)) ne' in
      let (r, cut) = name_part-cut name plaintext in
      let whole =
        framed-cut env_header_prefix (format_int (pos p)) n name plaintext r
          (All-append _ env_header_prefix (format_int (pos p)) (omega arith) (format_int-IsLine p))
          cut in
      (
        c,
        rw (seal_multi_lem age laws coins plaintext recipients rs p name n hp hn ne parsed, e),
        λ identity id want i m.
            let dec =
              decrypt-envelope age laws coins rs (envelope plaintext (pos p) name (pos n)) c
                identity id e i m in
            open_verified_refused age c identity want _ _ _
              (dec ∙ ap (λ o. require o no_separator) whole) (parse_headers-low p n r.0 fits low),
      )
