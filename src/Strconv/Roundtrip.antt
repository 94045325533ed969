-- ===== src/Strconv/Roundtrip.antt =====
-- Printing a number with `%d` and parsing it again.
use gitseal.Prelude.{
  ℕ, zero, suc, ◌+◌, ◌-◌, ◌*◌, ◌/◌, ◌%◌, ◌≤◌, ◌<◌, ◌≡◌, refl, false, some, [], ◌∷◌, ◌++◌, Text, pos,
  arith, All, All-append, is_empty,
}
use gitseal.Strconv.Decimal.{max_int64, digits, format_ℕ, format_int, parse_digits, parse_int}
use gitseal.Strconv.Lines.{IsLine}
use gitseal.Strconv.Spaces.{IsSolid, trim_space, trim_space-IsTrimmed, IsSolid-IsTrimmed}

abbrev IsDigit : ℕ → Type 0
IsDigit c = (b'0' ≤ c) × (c ≤ b'9')

digits-IsDigit : (fuel n : ℕ) → All IsDigit (digits fuel n)
unfolding digits
digits-IsDigit zero n = tt
digits-IsDigit (suc fuel) n = ground (
  arith,
  All-append IsDigit (digits fuel (n / 10)) ((b'0' + n % 10) ∷ []) (digits-IsDigit fuel (n / 10))
      (omega arith, tt),
)

-- One more digit behind an accepted text.
parse_digits-snoc :
    (m : ℕ) (s : Text) (v d : ℕ)
    → d < 10
    → parse_digits m s ≡ some v
    → parse_digits m (s ++ (b'0' + d) ∷ []) ≡ some (v * 10 + d)
unfolding parse_digits
parse_digits-snoc m [] v d lt h = ground arith
parse_digits-snoc m (c ∷ s) v d lt h =
    ground (arith, parse_digits-snoc (m * 10 + (c - b'0')) s v d lt)

parse_digits-digits : (fuel n : ℕ) → n < fuel → parse_digits 0 (digits fuel n) ≡ some n
unfolding digits parse_digits
parse_digits-digits zero n h = absurd (omega arith)
parse_digits-digits (suc fuel) n h = ground (
  arith,
  parse_digits-digits fuel (n / 10),
  parse_digits-snoc 0 (digits fuel (n / 10)) (n / 10) (n % 10),
)

is_empty-snoc : (s : Text) (c : ℕ) → is_empty (s ++ c ∷ []) ≡ false
is_empty-snoc [] c = refl
is_empty-snoc (d ∷ s) c = refl

is_empty-digits : (fuel n : ℕ) → is_empty (digits (suc fuel) n) ≡ false
unfolding digits
is_empty-digits fuel n = ground (arith, is_empty-snoc (digits fuel (n / 10)) (b'0' + n % 10))

parse_unsigned :
    (s : Text) (n : ℕ)
    → is_empty s ≡ false
    → All IsDigit s
    → parse_digits 0 s ≡ some n
    → n ≤ max_int64
    → parse_int s ≡ some (pos n)
unfolding parse_int
parse_unsigned [] n ne ds h fits = cc
parse_unsigned (c ∷ s) n ne (d, ds) h fits = ground arith

-- A number that `int64` holds is read back as it was printed.
pub parse_int-format_int : (n : ℕ) → n ≤ max_int64 → parse_int (format_int (pos n)) ≡ some (pos n)
unfolding format_int format_ℕ
parse_int-format_int n fits =
    parse_unsigned (digits (suc n) n) n (is_empty-digits n n) (digits-IsDigit (suc n) n)
      (parse_digits-digits (suc n) n (omega arith)) fits

IsDigit-IsLine : (s : Text) → All IsDigit s → IsLine s
IsDigit-IsLine [] _ = tt
IsDigit-IsLine (c ∷ s) (h, hs) = (omega arith, IsDigit-IsLine s hs)

-- A printed number holds no newline.
pub format_int-IsLine : (n : ℕ) → IsLine (format_int (pos n))
unfolding format_int format_ℕ
format_int-IsLine n = IsDigit-IsLine _ (digits-IsDigit (suc n) n)

IsDigit-IsSolid : (s : Text) → All IsDigit s → All IsSolid s
IsDigit-IsSolid [] _ = tt
IsDigit-IsSolid (c ∷ s) (h, hs) = ((ground arith, omega (arith, h)), IsDigit-IsSolid s hs)

-- Trimming does not change a printed number.
pub trim_space-format_int : (n : ℕ) → trim_space (format_int (pos n)) ≡ format_int (pos n)
unfolding format_int format_ℕ
trim_space-format_int n =
    trim_space-IsTrimmed _ (IsSolid-IsTrimmed _ (IsDigit-IsSolid _ (digits-IsDigit (suc n) n)))

IsDigit-byte : (s : Text) → All IsDigit s → All (λ c. c < 256) s
IsDigit-byte [] _ = tt
IsDigit-byte (c ∷ s) (d, ds) = (omega (arith, d), IsDigit-byte s ds)

pub format_int_bytes : (n : ℕ) → All (λ c. c < 256) (format_int (pos n))
unfolding format_int format_ℕ
format_int_bytes n = IsDigit-byte _ (digits-IsDigit (suc n) n)
