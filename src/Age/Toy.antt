-- ===== src/Age/Toy.antt =====
-- A concrete function for each operation of the interface, for which its laws hold: a recipient is
-- its own identity, and a file lists its recipients in the clear.
use mathlib.Core.Path.{subst}
use mathlib.Core.Option.{some-injective}
use gitseal.Prelude.{
  ℕ, suc, zero, leb, ◌<◌, ◌%◌, ◌≡◌, refl, Bool, false, Option, none, some, List, [], ◌∷◌, ◌++◌,
  ◌||◌, Text, text, text_eq, any, is_empty, All, if◌then◌else◌, arith, append_assoc, append-nil, ap,
  sym, ◌∙◌,
}
use gitseal.Strconv.{is_space, IsSolid}
use gitseal.Base64.{IsByte}

unfoldable pub parse : Text → Option Text
parse [] = none
parse (c ∷ s) = if any is_space (c ∷ s) || any (leb 128) (c ∷ s) then none else some (c ∷ s)

no_space-IsSolid : (s : Text) → any is_space s ≡ false → any (leb 128) s ≡ false → All IsSolid s
no_space-IsSolid [] h low = tt
no_space-IsSolid (c ∷ s) h low =
    ((ground arith, ground arith), no_space-IsSolid s (ground arith) (ground arith))

pub parse_text : (r parsed : Text) → parse r ≡ some parsed → (is_empty r ≡ false) × All IsSolid r
unfolding parse
parse_text [] parsed h = cc
parse_text (c ∷ s) parsed h = (refl, no_space-IsSolid (c ∷ s) (ground arith) (ground arith))

below_128 : (s : Text) → any (leb 128) s ≡ false → All (λ c. c < 128) s
below_128 [] h = tt
below_128 (c ∷ s) h = (ground arith, below_128 s (ground arith))

pub parse_ascii :
    (r parsed : Text) → parse r ≡ some parsed → All (λ c. c < 128) r × All (λ c. c < 128) parsed
unfolding parse
parse_ascii [] parsed h = cc
parse_ascii (c ∷ s) parsed h =
    let low : All (λ d. d < 128) (c ∷ s) = below_128 (c ∷ s) (ground arith) in
    let same : c ∷ s ≡ parsed = some-injective (c ∷ s) parsed (ground arith) in
    (low, subst (λ t. All (λ d. d < 128) t) same low)

-- 0 ends the recipients, 1 ends a recipient, and any other number is a byte of one.
unfoldable pub mark : Text → Text → Text
mark [] rest = 1 ∷ rest
mark (c ∷ r) rest = suc (suc c) ∷ mark r rest

unfoldable pub frame : List Text → Text → Text
unfolding mark
frame [] plain = 0 ∷ plain
frame (r ∷ rs) plain = mark r (frame rs plain)

-- Reads recipients behind the part `cur` of one; `found` tells whether `id` was among them.
unfoldable pub unframe : Text → Bool → Text → Text → Option Text
unframe id found cur [] = none
unframe id found cur (zero ∷ plain) = if found then some plain else none
unframe id found cur (suc zero ∷ s) = unframe id (text_eq id cur || found) [] s
unframe id found cur (suc (suc c) ∷ s) = unframe id found (cur ++ c ∷ []) s

unfoldable pub encrypt : ℕ → List Text → Text → Option Text
unfolding frame
encrypt coins [] plain = none
encrypt coins (r ∷ rs) plain = some ((coins % 256) ∷ frame (r ∷ rs) plain)

unfoldable pub decrypt : Text → Text → Option Text
unfolding unframe
decrypt id [] = none
decrypt id (coins ∷ s) = unframe id false [] s

-- One line "-> " for each recipient, and a last line.
stanzas : Text → Text
stanzas [] = text "---"
stanzas (zero ∷ s) = text "---"
stanzas (suc zero ∷ s) = text "-> X25519\n" ++ stanzas s
stanzas (suc (suc c) ∷ s) = stanzas s

unfoldable pub extract_header : Text → Option Text
unfolding stanzas
extract_header [] = none
extract_header (coins ∷ s) = some (stanzas s)

unframe-mark :
    (id : Text) (found : Bool) (cur r rest : Text)
    → unframe id found cur (mark r rest) ≡ unframe id (text_eq id (cur ++ r) || found) [] rest
unfolding unframe mark
unframe-mark id found cur [] rest = rw append-nil
unframe-mark id found cur (c ∷ r) rest =
    unframe-mark id found (cur ++ c ∷ []) r rest
    ∙ ap (λ (t : Text). unframe id (text_eq id t || found) [] rest) (append_assoc cur (c ∷ []) r)

unframe-frame :
    (id : Text) (found : Bool) (rs : List Text) (plain : Text)
    → unframe id found [] (frame rs plain)
      ≡ (if any (text_eq id) rs || found then some plain else none)
unfolding frame
unframe-frame id found [] plain = unfold unframe in refl
unframe-frame id found (r ∷ rs) plain =
    unframe-mark id found [] r (frame rs plain)
    ∙ ground (arith, unframe-frame id (text_eq id r || found) rs plain)

pub encrypt_some :
    (coins : ℕ) (rs : List Text) (plain : Text)
    → is_empty rs ≡ false
    → (c : Text) × (encrypt coins rs plain ≡ some c)
unfolding encrypt
encrypt_some coins [] plain h = cc
encrypt_some coins (r ∷ rs) plain h = ((coins % 256) ∷ frame (r ∷ rs) plain, refl)

pub decrypt-encrypt :
    (coins : ℕ) (rs : List Text) (plain c id : Text)
    → encrypt coins rs plain ≡ some c
    → decrypt id c ≡ (if any (text_eq id) rs then some plain else none)
unfolding encrypt decrypt
decrypt-encrypt coins [] plain c id h = cc
decrypt-encrypt coins (r ∷ rs) plain c id h =
    ap (decrypt id) (sym (some-injective _ _ h))
    ∙ ground (arith, unframe-frame id false (r ∷ rs) plain)

mark_bytes : (r rest : Text) → All (λ c. c < 128) r → All IsByte rest → All IsByte (mark r rest)
unfolding mark
mark_bytes [] rest _ h = (omega arith, h)
mark_bytes (c ∷ r) rest (low, lows) h = (omega arith, mark_bytes r rest lows h)

frame_bytes :
    (rs : List Text) (plain : Text)
    → All (λ r. All (λ b. b < 128) r) rs
    → All IsByte plain
    → All IsByte (frame rs plain)
unfolding frame
frame_bytes [] plain _ h = (omega arith, h)
frame_bytes (r ∷ rs) plain (low, lows) h = mark_bytes r _ low (frame_bytes rs plain lows h)

pub encrypt_bytes :
    (coins : ℕ) (rs : List Text) (plain c : Text)
    → encrypt coins rs plain ≡ some c
    → All IsByte plain
    → All (λ r. All (λ b. b < 128) r) rs
    → All IsByte c
unfolding encrypt
encrypt_bytes coins [] plain c e _ _ = cc
encrypt_bytes coins (r ∷ rs) plain c e h low =
    subst (λ t. All IsByte t) (some-injective _ _ e) (omega arith, frame_bytes (r ∷ rs) plain low h)
