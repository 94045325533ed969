-- ===== src/Crypto/Frame.antt =====
-- How the header block of a written envelope is cut off and split into lines.
use mathlib.Core.Path.{◌≡⟨◌⟩◌, ◌∎}
use gitseal.Prelude.{
  ℕ, ◌≡◌, ◌≢◌, some, List, [], ◌∷◌, ◌++◌, Text, ℤ, pos, arith, ap, sym, ◌∙◌, append_assoc,
  All-append, Option-cases, inl, inr,
}
use gitseal.Strconv.{
  IsLine, newline, cut_blank_line, split_lines, split_lines_two, cut_blank_line-skip,
  cut_blank_line-last, cut_blank_line-ne-none, prepend, format_int, format_int-IsLine,
}
use gitseal.Crypto.Headers.{level_header_prefix, name_header_prefix}
use gitseal.Crypto.Seal.{envelope_tail}

-- A discriminator's line and what follows it.
abbrev pub framed : Text → Text → ℤ → Text → Text → Text
framed prefix v level name plaintext =
    prefix ++ (v ++ (newline ∷ envelope_tail level name plaintext))

abbrev pub name_part : Text → Text → Text
name_part name plaintext = name_header_prefix ++ (name ++ (newline ∷ newline ∷ plaintext))

header_level-IsLine : (n : ℕ) → IsLine (level_header_prefix ++ format_int (pos n))
header_level-IsLine n =
    All-append _ level_header_prefix (format_int (pos n)) (omega arith) (format_int-IsLine n)

-- The name's line and the blank line, however the name reads, leave some block and some body.
pub name_part-cut :
    (name plaintext : Text)
    → (r : Text × Text) × (cut_blank_line (name_part name plaintext) ≡ some r)
name_part-cut name plaintext = elim (Option-cases (cut_blank_line (name_part name plaintext))) [
  | inl missed ↦ absurd (
      cut_blank_line-ne-none (name_header_prefix ++ name) plaintext (
        ap cut_blank_line (append_assoc name_header_prefix name (newline ∷ newline ∷ plaintext))
        ∙ missed))
  | inr found ↦ found
]

-- A line in two parts, and a block that begins with another byte than a newline.
line-cut :
    (p v : Text) (c : ℕ) (rest : Text) (r : Text × Text)
    → IsLine (p ++ v)
    → c ≢ newline
    → cut_blank_line (c ∷ rest) ≡ some r
    → cut_blank_line (p ++ (v ++ newline ∷ c ∷ rest)) ≡ some (p ++ (v ++ newline ∷ r.0), r.1)
line-cut p v c rest r line ne e =
    cut_blank_line (p ++ (v ++ newline ∷ c ∷ rest))
    ≡⟨ ap cut_blank_line (sym (append_assoc p v (newline ∷ c ∷ rest))) ⟩
      cut_blank_line ((p ++ v) ++ newline ∷ c ∷ rest)
    ≡⟨ cut_blank_line-skip (p ++ v) c rest line ne ⟩
      prepend ((p ++ v) ++ newline ∷ []) (cut_blank_line (c ∷ rest))
    ≡⟨ ap (prepend ((p ++ v) ++ newline ∷ [])) e ⟩ some (((p ++ v) ++ newline ∷ []) ++ r.0, r.1)
    ≡⟨ (simp append_assoc) ⟩ some (p ++ (v ++ newline ∷ r.0), r.1) ∎

-- The whole block: the discriminator's line, the level's line, and what the name leaves.
pub framed-cut :
    (p v : Text) (n : ℕ) (name plaintext : Text) (r : Text × Text)
    → IsLine (p ++ v)
    → cut_blank_line (name_part name plaintext) ≡ some r
    → cut_blank_line (framed p v (pos n) name plaintext)
      ≡ some (
        p ++ (v ++ newline ∷ (level_header_prefix ++ (format_int (pos n) ++ newline ∷ r.0))),
        r.1,
      )
framed-cut p v n name plaintext r line e = line-cut p v _ _ _ line (omega arith) (
    line-cut level_header_prefix (format_int (pos n)) _ _ r (header_level-IsLine n) (omega arith) e)

-- A name with no newline leaves the whole plaintext as the body.
pub name_part-IsLine :
    (name plaintext : Text)
    → IsLine name
    → cut_blank_line (name_part name plaintext) ≡ some (name_header_prefix ++ name, plaintext)
name_part-IsLine name plaintext line =
    ap cut_blank_line (sym (append_assoc name_header_prefix name (newline ∷ newline ∷ plaintext)))
    ∙ cut_blank_line-last (name_header_prefix ++ name) plaintext
        (All-append _ name_header_prefix name (omega arith) line)

line-split :
    (p v rest : Text)
    → IsLine (p ++ v)
    → split_lines (p ++ (v ++ newline ∷ rest)) ≡ (p ++ v) ∷ split_lines rest
line-split p v rest line =
    ap split_lines (sym (append_assoc p v (newline ∷ rest))) ∙ split_lines_two (p ++ v) rest line

-- The two lines of a block.
pub split_lines-block :
    (p v : Text) (n : ℕ) (rest : Text)
    → IsLine (p ++ v)
    → split_lines
        (p ++ (v ++ newline ∷ (level_header_prefix ++ (format_int (pos n) ++ newline ∷ rest))))
      ≡ (p ++ v) ∷ (level_header_prefix ++ format_int (pos n)) ∷ split_lines rest
split_lines-block p v n rest line =
    line-split p v _ line
    ∙ ap (λ (ls : List Text). (p ++ v) ∷ ls)
        (line-split level_header_prefix (format_int (pos n)) rest (header_level-IsLine n))
