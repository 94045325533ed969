-- ===== src/Strconv/Spaces.antt =====
-- strings.TrimSpace on UTF-8 bytes: the white space of Unicode in one to three bytes.
use mathlib.Core.List.{reverse, reverse_aux, reverse-reverse, reverse-append, reverse-cons}
use gitseal.Prelude.{
  ℕ, suc, zero, ◌<◌, ◌≡◌, refl, Bool, false, ◌||◌, ◌&&◌, [], ◌∷◌, ◌++◌, Text, text, All,
  append_assoc, eqb, leb, if◌then◌else◌, arith, ap,
}

abbrev pub is_space : ℕ → Bool
is_space c = eqb c 32 || eqb c 9 || eqb c 10 || eqb c 11 || eqb c 12 || eqb c 13

-- U+0085 and U+00A0
abbrev pub is_space_2 : ℕ → ℕ → Bool
is_space_2 a b = eqb a 194 && (eqb b 133 || eqb b 160)

-- U+1680, U+2000 to U+200A, U+2028, U+2029, U+202F, U+205F and U+3000
abbrev pub is_space_3 : ℕ → ℕ → ℕ → Bool
is_space_3 a b c =
    (eqb a 225 && eqb b 154 && eqb c 128)
    || (eqb a 226 && eqb b 128 && ((leb 128 c && leb c 138) || eqb c 168 || eqb c 169 || eqb c 175))
    || (eqb a 226 && eqb b 129 && eqb c 159)
    || (eqb a 227 && eqb b 128 && eqb c 128)

-- The width of the white space that a text begins with, 0 if it begins with none.
abbrev pub first_width : Text → ℕ
first_width [] = 0
first_width (a ∷ []) = if is_space a then 1 else 0
first_width (a ∷ b ∷ []) = if is_space a then 1 else if is_space_2 a b then 2 else 0
first_width (a ∷ b ∷ c ∷ s) =
    if is_space a then 1 else if is_space_2 a b then 2 else if is_space_3 a b c then 3 else 0

-- The same of the last one, on the text backwards.
abbrev pub last_width : Text → ℕ
last_width [] = 0
last_width (a ∷ []) = if is_space a then 1 else 0
last_width (b ∷ a ∷ []) = if is_space b then 1 else if is_space_2 a b then 2 else 0
last_width (c ∷ b ∷ a ∷ s) =
    if is_space c then 1 else if is_space_2 b c then 2 else if is_space_3 a b c then 3 else 0

-- TrimLeftFunc with unicode.IsSpace; the number counts the bytes of a space that are still to drop.
unfoldable pub trim_left : (Text → ℕ) → ℕ → Text → Text
trim_left width k [] = []
trim_left width (suc k) (c ∷ s) = trim_left width k s
trim_left width zero (c ∷ s) = elim (width (c ∷ s)) [ zero ↦ c ∷ s | suc k ↦ trim_left width k s ]

unfoldable pub trim_space : Text → Text
trim_space s = reverse (trim_left last_width 0 (reverse (trim_left first_width 0 s)))

-- A text that neither begins nor ends with white space.
abbrev pub IsTrimmed : Text → Type 0
IsTrimmed s = (first_width s ≡ 0) × (last_width (reverse s) ≡ 0)

trim_left-stays : (width : Text → ℕ) (s : Text) → width s ≡ 0 → trim_left width 0 s ≡ s
unfolding trim_left
trim_left-stays width [] _ = refl
trim_left-stays width (c ∷ s) h =
    ap (λ (n : ℕ). elim n [ zero ↦ c ∷ s | suc k ↦ trim_left width k s ]) h

pub trim_space-IsTrimmed : (s : Text) → IsTrimmed s → trim_space s ≡ s
unfolding trim_space
trim_space-IsTrimmed s (first, last) =
    rw (trim_left-stays first_width s first, trim_left-stays last_width (reverse s) last)
      (reverse-reverse s)

-- A byte of printable ASCII, or a control character that is no white space.
abbrev pub IsSolid : ℕ → Type 0
IsSolid c = (is_space c ≡ false) × (c < 128)

pub first_width-IsSolid : (c : ℕ) (s : Text) → IsSolid c → first_width (c ∷ s) ≡ 0
first_width-IsSolid c [] (h, low) = ground arith
first_width-IsSolid c (b ∷ []) (h, low) = ground arith
first_width-IsSolid c (b ∷ a ∷ s) (h, low) = ground arith

-- Behind a byte of ASCII the last space is found in what follows.
pub last_width-append :
    (r s : Text) (c : ℕ) → IsSolid c → last_width r ≡ 0 → last_width (r ++ c ∷ s) ≡ 0
last_width-append [] [] c (h, low) e = ground arith
last_width-append [] (a ∷ []) c (h, low) e = ground arith
last_width-append [] (a ∷ b ∷ s) c (h, low) e = ground arith
last_width-append (x ∷ []) [] c (h, low) e = ground arith
last_width-append (x ∷ []) (a ∷ s) c (h, low) e = ground arith
last_width-append (x ∷ y ∷ []) s c (h, low) e = ground arith
last_width-append (x ∷ y ∷ z ∷ r) s c (h, low) e = e

-- What stands before a solid byte, with its own beginning, and what stands behind it, with its own end.
pub IsTrimmed-around :
    (a b : ℕ) (k v : Text)
    → IsSolid a
    → IsSolid b
    → last_width (reverse v) ≡ 0
    → IsTrimmed (a ∷ k ++ b ∷ v)
IsTrimmed-around a b k v ha hb e = (
  first_width-IsSolid a (k ++ b ∷ v) ha,
  rw
      (
        reverse-append (a ∷ k) (b ∷ v),
        reverse-cons b v,
        append_assoc (reverse v) (b ∷ []) (reverse (a ∷ k)),
      )
      (last_width-append (reverse v) (reverse (a ∷ k)) b hb e),
)

All-reverse_aux : (s t : Text) → All IsSolid s → All IsSolid t → All IsSolid (reverse_aux s t)
All-reverse_aux [] t _ ht = ht
All-reverse_aux (c ∷ s) t (h, hs) ht = All-reverse_aux s (c ∷ t) hs (h, ht)

pub IsSolid-IsTrimmed : (s : Text) → All IsSolid s → IsTrimmed s
IsSolid-IsTrimmed [] _ = (refl, refl)
IsSolid-IsTrimmed (c ∷ s) (h, hs) = (
  first_width-IsSolid c s h,
  last_of_solid (reverse (c ∷ s)) (All-reverse_aux (c ∷ s) [] (h, hs) tt),
)
  where
    last_of_solid : (r : Text) → All IsSolid r → last_width r ≡ 0
    last_of_solid [] _ = refl
    last_of_solid (a ∷ r) (ha, _) = last_width-append [] r a ha refl

trim_tests : trim_space (194 ∷ 160 ∷ text " a b" ++ 227 ∷ 128 ∷ 128 ∷ 10 ∷ []) ≡ text "a b"
unfolding trim_space trim_left
trim_tests = refl
