-- ===== src/Crypto/Stanzas.antt =====
-- recipients.go: counting recipients without decrypting.
use gitseal.Prelude.{
  ℕ, suc, Option, none, some, List, [], ◌∷◌, Text, text, strip_prefix, eqb, Result, ok, ◌>>=◌, ◌>>◌,
  refuse_if, require,
}
use gitseal.Strconv.{split_lines}
use gitseal.Age.{Age}
use gitseal.Crypto.Errors.{Error, bad_age_header, no_stanzas}

abbrev pub stanza_line_prefix : Text
stanza_line_prefix = text "-> "

abbrev is_stanza : Option Text → ℕ → ℕ
is_stanza none n = n
is_stanza (some _) n = suc n

unfoldable pub count_stanzas : List Text → ℕ
count_stanzas [] = 0
count_stanzas (line ∷ lines) =
    is_stanza (strip_prefix stanza_line_prefix line) (count_stanzas lines)

unfoldable pub recipient_stanza_count : Age → Text → Result Error ℕ
unfolding count_stanzas
recipient_stanza_count age ciphertext = do
  header ← require (age.extract_header ciphertext) bad_age_header
  let count = count_stanzas (split_lines header)
  refuse_if (eqb count 0) no_stanzas
  ok count
