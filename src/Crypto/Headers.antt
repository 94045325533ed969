-- ===== src/Crypto/Headers.antt =====
-- crypto.go and v4.go: the header block of an envelope. The loops over its lines carry the values
-- found so far, as the source's variables do.
pub mod Laws
use gitseal.Prelude.{
  ℕ, ◌≡◌, refl, Bool, true, false, Option, none, some, List, [], ◌∷◌, Text, text, ℤ, pos, negsuc,
  ltb_ℤ, strip_prefix, if◌then◌else◌, Result, ok, err, ◌>>=◌, ◌>>◌, refuse_if, require,
}
use gitseal.Strconv.{parse_int, trim_space, split_lines}
use gitseal.Crypto.Errors.{
  Error, bad_project_id_header, bad_level_header, bad_recipient_header, level_below_minimum,
}

abbrev pub env_header_prefix : Text
env_header_prefix = text "gitseal-project-id:"

abbrev pub level_header_prefix : Text
level_header_prefix = text "gitseal-min-access-level:"

abbrev pub recipient_header_prefix : Text
recipient_header_prefix = text "gitseal-recipient:"

abbrev pub name_header_prefix : Text
name_header_prefix = text "gitseal-name:"

-- GitLab's Developer
abbrev pub default_min_access_level : ℤ
default_min_access_level = pos 30

-- parseLevelLine, given what stands behind the prefix.
unfoldable pub parse_level_line : Text → Result Error ℤ
parse_level_line v = do
  level ← require (parse_int (trim_space v)) bad_level_header
  refuse_if (ltb_ℤ level default_min_access_level) (level_below_minimum level)
  ok level

-- `projectID`/`pubkey`, `level`, `gotID`/`gotKey` and `gotLevel`
pub record Found (A : Type 0) : Type 0 where
  pub id : A
  pub level : ℤ
  pub got_id : Bool
  pub got_level : Bool

-- `!got && strings.HasPrefix(line, prefix)`, with what follows the prefix
abbrev pub unseen : Bool → Text → Text → Option Text
unseen got prefix line = if got then none else strip_prefix prefix line

module _ {A : Type 0} (prefix : Text) (parse : Text → Result Error A) where
  -- The cases of the switch, on what stands behind each prefix.
  unfoldable pub read_case : Option Text → Option Text → Found A → Result Error (Found A)
  unfolding parse_level_line
  read_case (some v) _ f = parse (trim_space v) >>= λ id. ok (record f { id = id; got_id = true })
  read_case none (some v) f =
      parse_level_line v >>= λ level. ok (record f { level = level; got_level = true })
  read_case none none f = ok f

  -- One round of the loop.
  unfoldable pub read_line : Text → Found A → Result Error (Found A)
  unfolding read_case
  read_line line f =
      read_case (unseen f.got_id prefix line) (unseen f.got_level level_header_prefix line) f

  unfoldable pub read_lines : List Text → Found A → Result Error (Found A)
  read_lines [] f = ok f
  read_lines (line ∷ lines) f = read_line line f >>= read_lines lines

abbrev pub parse_project_id : Text → Result Error ℤ
parse_project_id v = require (parse_int v) bad_project_id_header

-- parseHeaders: the project id (-1 if none) and the level.
unfoldable pub parse_headers : Text → Result Error (Found ℤ)
parse_headers header =
    read_lines env_header_prefix parse_project_id (split_lines header) (record {
      id = negsuc 0;
      level = default_min_access_level;
      got_id = false;
      got_level = false;
    })

module _ (parse_recipient : Text → Option Text) where
  -- the embedded text itself is kept, once age has parsed it
  abbrev pub parse_pubkey : Text → Result Error Text
  parse_pubkey v = require (parse_recipient v) bad_recipient_header >>= λ _. ok v

  -- parseHeadersV4: the pubkey ("" if none) and the level.
  unfoldable pub parse_headers_v4 : Text → Result Error (Found Text)
  parse_headers_v4 header =
      read_lines recipient_header_prefix parse_pubkey (split_lines header)
        (record { id = []; level = default_min_access_level; got_id = false; got_level = false })
