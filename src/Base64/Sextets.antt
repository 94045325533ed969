-- ===== src/Base64/Sextets.antt =====
-- The standard alphabet.
use gitseal.Prelude.{
  ℕ, ◌+◌, ◌-◌, ◌<◌, ◌≡◌, false, ◌&&◌, Option, none, some, eqb, ltb, leb, if◌then◌else◌, arith,
}

unfoldable pub encode_sextet : ℕ → ℕ
encode_sextet v =
    if ltb v 26
    then b'A' + v
    else if ltb v 52
    then b'a' + (v - 26)
    else if ltb v 62
    then b'0' + (v - 52)
    else if eqb v 62
    then b'+'
    else b'/'

unfoldable pub decode_sextet : ℕ → Option ℕ
decode_sextet c =
    if leb b'A' c && leb c b'Z'
    then some (c - b'A')
    else if leb b'a' c && leb c b'z'
    then some (c - b'a' + 26)
    else if leb b'0' c && leb c b'9'
    then some (c - b'0' + 52)
    else if eqb c b'+'
    then some 62
    else if eqb c b'/'
    then some 63
    else none

pub decode-encode_sextet : (v : ℕ) → v < 64 → decode_sextet (encode_sextet v) ≡ some v
unfolding encode_sextet decode_sextet
decode-encode_sextet v h = ground arith

-- A letter of the alphabet is neither padding nor a line break.
pub encode_sextet_plain :
    (v : ℕ)
    → v < 64
    → (eqb (encode_sextet v) 61 ≡ false)
      × (eqb (encode_sextet v) 10 ≡ false)
      × (eqb (encode_sextet v) 13 ≡ false)
unfolding encode_sextet
encode_sextet_plain v h = ground arith
