-- ===== src/Strconv/Lines.antt =====
-- The lines of a header block.
use gitseal.Prelude.{
  ℕ, ◌≡◌, ◌≢◌, refl, Option, none, some, List, [], ◌∷◌, ◌++◌, Text, text, All, eqb, if◌then◌else◌,
  arith, ap, ◌∙◌,
}
use gitseal.Strconv.Spaces.{IsSolid}

abbrev pub newline : ℕ
newline = 10

-- strings.Split(s, "\n"): at least one part
push_first : ℕ → List Text → List Text
push_first c [] = (c ∷ []) ∷ []
push_first c (l ∷ ls) = (c ∷ l) ∷ ls

unfoldable pub split_lines : Text → List Text
unfolding push_first
split_lines [] = [] ∷ []
split_lines (c ∷ s) =
    let rest = split_lines s in if eqb c newline then [] ∷ rest else push_first c rest

-- `bytes.Index(env, "\n\n")` and the two slices around it
abbrev behind : ℕ → Option (Text × Text) → Option (Text × Text)
behind c none = none
behind c (some (header, body)) = some (c ∷ header, body)

unfoldable pub cut_blank_line : Text → Option (Text × Text)
cut_blank_line [] = none
cut_blank_line (c ∷ []) = none
cut_blank_line (c ∷ d ∷ s) =
    let later = behind c (cut_blank_line (d ∷ s)) in
    if eqb c newline then (if eqb d newline then some ([], s) else later) else later

-- A text with no newline.
abbrev pub IsLine : Text → Type 0
IsLine = All (λ c. c ≢ newline)

-- A text of solid bytes holds no newline.
pub IsSolid-IsLine : (s : Text) → All IsSolid s → IsLine s
IsSolid-IsLine [] _ = tt
IsSolid-IsLine (c ∷ s) ((h, low), hs) = (ground arith, IsSolid-IsLine s hs)

pub split_lines-IsLine : (s : Text) → IsLine s → split_lines s ≡ s ∷ []
unfolding split_lines
split_lines-IsLine [] _ = refl
split_lines-IsLine (c ∷ s) (h, hs) = ground (arith, split_lines-IsLine s hs)

-- A line and the rest behind its newline.
pub split_lines_two :
    (l rest : Text) → IsLine l → split_lines (l ++ newline ∷ rest) ≡ l ∷ split_lines rest
unfolding split_lines
split_lines_two [] rest _ = refl
split_lines_two (c ∷ l) rest (h, hs) = ground (arith, split_lines_two l rest hs)

split_tests : split_lines (text "a\n\nb") ≡ text "a" ∷ [] ∷ text "b" ∷ []
unfolding split_lines
split_tests = refl

cut_tests : cut_blank_line (text "a\nb\n\nc\n\n") ≡ some (text "a\nb", text "c\n\n")
unfolding cut_blank_line
cut_tests = refl

abbrev pub prepend : Text → Option (Text × Text) → Option (Text × Text)
prepend p none = none
prepend p (some (header, body)) = some (p ++ header, body)

cut_blank_line-cons :
    (d : ℕ) (s : Text) → d ≢ newline → cut_blank_line (d ∷ s) ≡ behind d (cut_blank_line s)
unfolding cut_blank_line
cut_blank_line-cons d [] h = refl
cut_blank_line-cons d (c ∷ s) h = ground arith

cut_blank_line-newline :
    (c : ℕ) (s : Text)
    → c ≢ newline
    → cut_blank_line (newline ∷ c ∷ s) ≡ behind newline (cut_blank_line (c ∷ s))
unfolding cut_blank_line
cut_blank_line-newline c s h = ground arith

behind-prepend :
    (d : ℕ) (p : Text) (o : Option (Text × Text)) → behind d (prepend p o) ≡ prepend (d ∷ p) o
behind-prepend d p none = refl
behind-prepend d p (some (header, body)) = refl

behind-eq : (d : ℕ) (o : Option (Text × Text)) → behind d o ≡ prepend (d ∷ []) o
behind-eq d none = refl
behind-eq d (some (header, body)) = refl

-- A line that another line follows, not a blank one, goes whole into the block before the blank line.
pub cut_blank_line-skip :
    (l : Text) (c : ℕ) (rest : Text)
    → IsLine l
    → c ≢ newline
    → cut_blank_line (l ++ newline ∷ c ∷ rest)
      ≡ prepend (l ++ newline ∷ []) (cut_blank_line (c ∷ rest))
cut_blank_line-skip [] c rest _ h =
    cut_blank_line-newline c rest h ∙ behind-eq newline (cut_blank_line (c ∷ rest))
cut_blank_line-skip (d ∷ l) c rest (hd, hl) h =
    cut_blank_line-cons d (l ++ newline ∷ c ∷ rest) hd
    ∙ ap (behind d) (cut_blank_line-skip l c rest hl h)
    ∙ behind-prepend d (l ++ newline ∷ []) (cut_blank_line (c ∷ rest))

-- A line before the blank line ends the block.
pub cut_blank_line-last :
    (l rest : Text) → IsLine l → cut_blank_line (l ++ newline ∷ newline ∷ rest) ≡ some (l, rest)
cut_blank_line-last [] rest _ = unfold cut_blank_line in refl
cut_blank_line-last (d ∷ l) rest (hd, hl) =
    cut_blank_line-cons d (l ++ newline ∷ newline ∷ rest) hd
    ∙ ap (behind d) (cut_blank_line-last l rest hl)

cut_blank_line_found : (d : ℕ) (s : Text) → cut_blank_line s ≢ none → cut_blank_line (d ∷ s) ≢ none
unfolding cut_blank_line
cut_blank_line_found d [] h = absurd (h refl)
cut_blank_line_found d (c ∷ s) h = ground arith

-- Where a blank line stands anywhere, the cut succeeds.
pub cut_blank_line-ne-none : (l rest : Text) → cut_blank_line (l ++ newline ∷ newline ∷ rest) ≢ none
cut_blank_line-ne-none [] rest = unfold cut_blank_line in λ e. cc
cut_blank_line-ne-none (d ∷ l) rest =
    cut_blank_line_found d (l ++ newline ∷ newline ∷ rest) (cut_blank_line-ne-none l rest)
