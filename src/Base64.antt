-- ===== src/Base64.antt =====
-- Go's `base64.StdEncoding`: padded, and with the line breaks that its decoder skips.
mod Sextets
pub mod Roundtrip
unfoldable pub use Sextets.{encode_sextet, decode_sextet}
pub use Sextets.{decode-encode_sextet, encode_sextet_plain}
use gitseal.Prelude.{
  ℕ, ◌+◌, ◌-◌, ◌*◌, ◌/◌, ◌%◌, ◌≤◌, ◌<◌, ◌≡◌, refl, Bool, true, false, ◌&&◌, ◌||◌, Option, none,
  some, List, [], ◌∷◌, ◌++◌, Text, text, All, eqb, is_empty, if◌then◌else◌, arith, ap, ◌∙◌,
}

abbrev padding : ℕ
padding = b'='

-- Groups of three bytes, and a padded group for one or two bytes more.
unfoldable pub encode : Text → Text
encode [] = []
encode (a ∷ []) = encode_sextet (a / 4) ∷ encode_sextet (a % 4 * 16) ∷ padding ∷ padding ∷ []
encode (a ∷ b ∷ []) =
    encode_sextet (a / 4)
    ∷ encode_sextet (a % 4 * 16 + b / 16)
    ∷ encode_sextet (b % 16 * 4)
    ∷ padding
    ∷ []
encode (a ∷ b ∷ c ∷ s) =
    encode_sextet (a / 4)
    ∷ encode_sextet (a % 4 * 16 + b / 16)
    ∷ encode_sextet (b % 16 * 4 + c / 64)
    ∷ encode_sextet (c % 64)
    ∷ encode s

-- The decoder skips '\r' and '\n'.
unfoldable pub strip_breaks : Text → Text
strip_breaks [] = []
strip_breaks (c ∷ s) = let rest = strip_breaks s in if eqb c 10 || eqb c 13 then rest else c ∷ rest

abbrev two : Option ℕ → Option ℕ → Option (ℕ × ℕ)
two (some w) (some x) = some (w, x)
two _ _ = none

-- The bytes of a padded last group: "wx==" or "wxy=". Bits beyond the bytes are not checked.
abbrev last_group : Option (ℕ × ℕ) → ℕ → Option ℕ → Option Text
last_group none y z = none
last_group (some (w, x)) y (some z) = some ((w * 4 + x / 16) ∷ (x % 16 * 16 + z / 4) ∷ [])
last_group (some (w, x)) y none = if eqb y padding then some ((w * 4 + x / 16) ∷ []) else none

abbrev full_group : Option (ℕ × ℕ) → Option (ℕ × ℕ) → Option Text → Option Text
full_group (some (w, x)) (some (y, z)) (some rest) =
    some ((w * 4 + x / 16) ∷ (x % 16 * 16 + y / 4) ∷ (y % 4 * 64 + z) ∷ rest)
full_group _ _ _ = none

unfoldable pub decode_groups : Text → Option Text
decode_groups [] = some []
decode_groups (w ∷ x ∷ y ∷ z ∷ s) =
    let front = two (decode_sextet w) (decode_sextet x) in
    let full = full_group front (two (decode_sextet y) (decode_sextet z)) (decode_groups s) in
    if eqb z padding && is_empty s then last_group front y (decode_sextet y) else full
decode_groups _ = none

unfoldable pub decode : Text → Option Text
unfolding decode_groups strip_breaks
decode s = decode_groups (strip_breaks s)

-- A byte.
abbrev pub IsByte : ℕ → Type 0
IsByte c = c < 256

decode_tests :
    (encode (text "Man") ≡ text "TWFu")
    × (encode (text "Ma") ≡ text "TWE=")
    × (encode (text "M") ≡ text "TQ==")
    × (decode (text "TWE=\n") ≡ some (text "Ma"))
    × (decode (text "TQ=") ≡ none)
    × (decode (text "TQ==TWFu") ≡ none)
unfolding encode decode encode_sextet decode_sextet
decode_tests = (refl, refl, refl, refl, refl, refl)
