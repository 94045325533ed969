-- ===== src/Crypto/Headers/Laws.antt =====
-- Reading back the header lines that the envelope writers print.
use gitseal.Prelude.{
  ℕ, ◌≡◌, refl, ◌≤◌, ◌<◌, true, false, Option, none, some, List, [], ◌∷◌, ◌++◌, Text, ℤ, pos, ◌≤ℤ◌,
  strip_prefix-append, Result, ok, err, ◌∙◌, >>=-eq-ok, false, ◌>>=◌, arith, ap,
}
use gitseal.Strconv.{trim_space, format_int, max_int64, parse_int-format_int, trim_space-format_int}
use gitseal.Crypto.Errors.{Error, level_below_minimum}
use gitseal.Crypto.Headers.{
  Found, read_line, read_lines, parse_level_line, level_header_prefix, default_min_access_level,
  read_case,
}

-- A printed level of at least Developer is read back.
pub parse_level_line-format_int :
    (n : ℕ) → 30 ≤ n → n ≤ max_int64 → parse_level_line (format_int (pos n)) ≡ ok (pos n)
unfolding parse_level_line
parse_level_line-format_int n low fits =
    rw (trim_space-format_int n, parse_int-format_int n fits) (ground arith)

-- A printed level below Developer is refused.
pub parse_level_line_low :
    (n : ℕ) → n < 30 → parse_level_line (format_int (pos n)) ≡ err (level_below_minimum (pos n))
unfolding parse_level_line
parse_level_line_low n low =
    rw (trim_space-format_int n, parse_int-format_int n (omega arith)) (ground arith)

-- Whatever is accepted as a level is at least Developer.
pub parse_level_line_bound :
    (v : Text) (level : ℤ) → parse_level_line v ≡ ok level → default_min_access_level ≤ℤ level
unfolding parse_level_line
parse_level_line_bound v level h = ground arith

module _ {A : Type 0} (prefix : Text) (parse : Text → Result Error A) where
  read_line_done :
      (line : Text) (f : Found A)
      → f.got_id ≡ true
      → f.got_level ≡ true
      → read_line prefix parse line f ≡ ok f
  unfolding read_line
  read_line_done line f i l = ground arith

  -- Once both values are found, no further line changes them.
  pub read_lines_done :
      (lines : List Text) (f : Found A)
      → f.got_id ≡ true
      → f.got_level ≡ true
      → read_lines prefix parse lines f ≡ ok f
  unfolding read_lines
  read_lines_done [] f i l = refl
  read_lines_done (line ∷ lines) f i l =
      ap (λ (r : Result Error (Found A)). r >>= read_lines prefix parse lines)
        (read_line_done line f i l)
      ∙ read_lines_done lines f i l

  read_case_level :
      (id level : Option Text) (f g : Found A)
      → default_min_access_level ≤ℤ f.level
      → read_case prefix parse id level f ≡ ok g
      → default_min_access_level ≤ℤ g.level
  unfolding read_case
  read_case_level (some v) level f g h e =
      let (id, parsed, same) = >>=-eq-ok (parse (trim_space v)) _ e in ground arith
  read_case_level none (some v) f g h e =
      let (level, parsed, same) = >>=-eq-ok (parse_level_line v) _ e in
      ground (arith, parse_level_line_bound v level parsed)
  read_case_level none none f g h e = ground arith

  -- Whatever the lines, the level that is read is at least Developer.
  pub read_lines_level :
      (lines : List Text) (f g : Found A)
      → default_min_access_level ≤ℤ f.level
      → read_lines prefix parse lines f ≡ ok g
      → default_min_access_level ≤ℤ g.level
  unfolding read_lines read_line
  read_lines_level [] f g h e = ground arith
  read_lines_level (line ∷ lines) f g h e =
      let (mid, first, rest) =
        >>=-eq-ok (read_line prefix parse line f) (read_lines prefix parse lines) e in
      read_lines_level lines mid g (read_case_level _ _ f mid h first) rest

  -- A line with the discriminator, and a line with the level behind it.
  read_line_id :
      (v : Text) (f : Found A) (id : A)
      → f.got_id ≡ false
      → parse (trim_space v) ≡ ok id
      → read_line prefix parse (prefix ++ v) f ≡ ok (record f { id = id; got_id = true })
  unfolding read_line
  read_line_id v f id i e = ground (arith, strip_prefix-append prefix v)

  read_line_level :
      (v : Text) (f : Found A) (level : ℤ)
      → f.got_id ≡ true
      → f.got_level ≡ false
      → parse_level_line v ≡ ok level
      → read_line prefix parse (level_header_prefix ++ v) f
        ≡ ok (record f { level = level; got_level = true })
  unfolding read_line
  read_line_level v f level i l e = ground (arith, strip_prefix-append level_header_prefix v)

  read_line_refused :
      (v : Text) (f : Found A) (e : Error)
      → f.got_id ≡ true
      → f.got_level ≡ false
      → parse_level_line v ≡ err e
      → read_line prefix parse (level_header_prefix ++ v) f ≡ err e
  unfolding read_line
  read_line_refused v f e i l d = ground (arith, strip_prefix-append level_header_prefix v)

  -- The two lines that a writer prints first decide both values, whatever lines follow.
  pub read_lines_two :
      (v w : Text) (lines : List Text) (f : Found A) (id : A) (level : ℤ)
      → f.got_id ≡ false
      → f.got_level ≡ false
      → parse (trim_space v) ≡ ok id
      → parse_level_line w ≡ ok level
      → read_lines prefix parse ((prefix ++ v) ∷ (level_header_prefix ++ w) ∷ lines) f
        ≡ ok (record { id = id; level = level; got_id = true; got_level = true })
  unfolding read_lines
  read_lines_two v w lines f id level i l e d =
      rw
        (
          read_line_id v f id i e,
          read_line_level w (record f { id = id; got_id = true }) level refl l d,
        )
        (read_lines_done lines _ refl refl)

  -- A level that is refused stops the loop, behind a discriminator that is accepted.
  pub read_lines_refused :
      (v w : Text) (lines : List Text) (f : Found A) (id : A) (e : Error)
      → f.got_id ≡ false
      → f.got_level ≡ false
      → parse (trim_space v) ≡ ok id
      → parse_level_line w ≡ err e
      → read_lines prefix parse ((prefix ++ v) ∷ (level_header_prefix ++ w) ∷ lines) f ≡ err e
  unfolding read_lines
  read_lines_refused v w lines f id e i l p d = rw (read_line_id v f id i p) (
      ap (λ (r : Result Error (Found A)). r >>= read_lines prefix parse lines)
        (read_line_refused w (record f { id = id; got_id = true }) e refl l d))
