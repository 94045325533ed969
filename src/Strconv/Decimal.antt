-- ===== src/Strconv/Decimal.antt =====
-- Decimal numbers. `int` is 64 bits wide on every platform that the program is built for, so `Atoi`
-- and `ParseInt(_, 10, 64)` accept the same texts.
use gitseal.Prelude.{
  Bool, ℕ, zero, suc, ◌+◌, ◌-◌, ◌*◌, ◌/◌, ◌%◌, ◌^◌, ◌≡◌, refl, ◌&&◌, Option, none, some, [], ◌∷◌,
  ◌++◌, Text, text, ℤ, pos, negsuc, ltb, leb, eqb, if◌then◌else◌,
}

abbrev pub max_int64 : ℕ
max_int64 = 2 ^ 63 - 1

-- The digits of a number, highest first. `fuel` bounds their count, and a number has no more
-- digits than its value plus one.
unfoldable pub digits : ℕ → ℕ → Text
digits zero n = []
digits (suc fuel) n =
    let front = digits fuel (n / 10) in
    if ltb n 10 then (b'0' + n) ∷ [] else front ++ (b'0' + n % 10) ∷ []

unfoldable pub format_ℕ : ℕ → Text
unfolding digits
format_ℕ n = digits (suc n) n

-- fmt's `%d`
unfoldable pub format_int : ℤ → Text
format_int (pos n) = format_ℕ n
format_int (negsuc n) = b'-' ∷ format_ℕ (suc n)

abbrev pub is_digit : ℕ → Bool
is_digit c = leb b'0' c && leb c b'9'

-- The loop of ParseUint behind `n`; the bound is tested by the caller, since numbers do not wrap.
unfoldable pub parse_digits : ℕ → Text → Option ℕ
parse_digits n [] = some n
parse_digits n (c ∷ s) =
    let rest = parse_digits (n * 10 + (c - b'0')) s in if is_digit c then rest else none

unfoldable pub parse_nonempty : Text → Option ℕ
parse_nonempty [] = none
parse_nonempty (c ∷ s) = parse_digits 0 (c ∷ s)

unfoldable pub within : ℕ → (ℕ → ℤ) → Option ℕ → Option ℤ
within most make none = none
within most make (some n) = if leb n most then some (make n) else none

abbrev negate : ℕ → ℤ
negate zero = pos 0
negate (suc n) = negsuc n

-- An optional sign, one or more digits, and a value that 64 bits hold; nothing else is accepted.
unfoldable pub parse_int : Text → Option ℤ
unfolding parse_nonempty within
parse_int [] = none
parse_int (c ∷ s) =
    if eqb c b'-'
    then within (suc max_int64) negate (parse_nonempty s)
    else if eqb c b'+'
    then within max_int64 pos (parse_nonempty s)
    else within max_int64 pos (parse_nonempty (c ∷ s))

-- What digits spell behind `n`.
abbrev pub value : ℕ → Text → ℕ
value n [] = n
value n (c ∷ s) = value (n * 10 + (c - b'0')) s

format_tests : format_int (negsuc 41) ≡ text "-42"
unfolding format_int format_ℕ
format_tests = refl

parse_tests :
    (parse_int (text "-42") ≡ some (negsuc 41))
    × (parse_int (text "9223372036854775808") ≡ none)
    × (parse_int (text "-9223372036854775808") ≡ some (negsuc 9223372036854775807))
    × (parse_int (text "4x") ≡ none)
    × (parse_int (text "-") ≡ none)
unfolding parse_int parse_digits
parse_tests = (refl, refl, refl, refl, refl)
