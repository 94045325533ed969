-- ===== src/Base64/Roundtrip.antt =====
-- Decoding what was encoded.
use gitseal.Prelude.{ℕ, ◌+◌, ◌*◌, ◌/◌, ◌%◌, ◌<◌, ◌≡◌, refl, some, [], ◌∷◌, Text, All, arith}
use gitseal.Base64.{
  encode, encode_sextet, decode_sextet, decode-encode_sextet, encode_sextet_plain, strip_breaks,
  decode_groups, decode, IsByte,
}

-- A letter is not a line break.
strip_letter :
    (v : ℕ) (s : Text)
    → v < 64
    → strip_breaks (encode_sextet v ∷ s) ≡ encode_sextet v ∷ strip_breaks s
unfolding strip_breaks
strip_letter v s h = ground (arith, encode_sextet_plain v h)

strip_padding : (s : Text) → strip_breaks (61 ∷ s) ≡ 61 ∷ strip_breaks s
unfolding strip_breaks
strip_padding s = refl

strip_breaks-encode : (s : Text) → All IsByte s → strip_breaks (encode s) ≡ encode s
unfolding encode
strip_breaks-encode [] _ = unfold strip_breaks in refl
strip_breaks-encode (a ∷ []) (ha, _) =
    rw
      (
        strip_letter (a / 4) _ (omega arith),
        strip_letter (a % 4 * 16) _ (omega arith),
        strip_padding,
        strip_padding,
      )
      (unfold strip_breaks in refl)
strip_breaks-encode (a ∷ b ∷ []) (ha, (hb, _)) =
    rw
      (
        strip_letter (a / 4) _ (omega arith),
        strip_letter (a % 4 * 16 + b / 16) _ (omega arith),
        strip_letter (b % 16 * 4) _ (omega arith),
        strip_padding,
      )
      (unfold strip_breaks in refl)
strip_breaks-encode (a ∷ b ∷ c ∷ s) (ha, (hb, (hc, hs))) = rw (
  strip_letter (a / 4) _ (omega arith),
  strip_letter (a % 4 * 16 + b / 16) _ (omega arith),
  strip_letter (b % 16 * 4 + c / 64) _ (omega arith),
  strip_letter (c % 64) _ (omega arith),
  strip_breaks-encode s hs,
)

group_four :
    (w x y z : ℕ) (s rest : Text)
    → w < 64
    → x < 64
    → y < 64
    → z < 64
    → decode_groups s ≡ some rest
    → decode_groups (encode_sextet w ∷ encode_sextet x ∷ encode_sextet y ∷ encode_sextet z ∷ s)
      ≡ some ((w * 4 + x / 16) ∷ (x % 16 * 16 + y / 4) ∷ (y % 4 * 64 + z) ∷ rest)
unfolding decode_groups
group_four w x y z s rest hw hx hy hz h =
    rw
      (
        decode-encode_sextet w hw,
        decode-encode_sextet x hx,
        decode-encode_sextet y hy,
        decode-encode_sextet z hz,
        h,
        (encode_sextet_plain z hz).0,
      )
      refl

group_three :
    (w x y : ℕ)
    → w < 64
    → x < 64
    → y < 64
    → decode_groups (encode_sextet w ∷ encode_sextet x ∷ encode_sextet y ∷ 61 ∷ [])
      ≡ some ((w * 4 + x / 16) ∷ (x % 16 * 16 + y / 4) ∷ [])
unfolding decode_groups
group_three w x y hw hx hy =
    rw (decode-encode_sextet w hw, decode-encode_sextet x hx, decode-encode_sextet y hy) refl

group_two :
    (w x : ℕ)
    → w < 64
    → x < 64
    → decode_groups (encode_sextet w ∷ encode_sextet x ∷ 61 ∷ 61 ∷ [])
      ≡ some ((w * 4 + x / 16) ∷ [])
unfolding decode_groups decode_sextet
group_two w x hw hx = rw (decode-encode_sextet w hw, decode-encode_sextet x hx) refl

split_six : (a b : ℕ) → b < 256 → a / 4 * 4 + (a % 4 * 16 + b / 16) / 16 ≡ a
split_six a b h = omega arith

split_six_last : (a : ℕ) → a / 4 * 4 + a % 4 * 16 / 16 ≡ a
split_six_last a = omega arith

split_four :
    (a b c : ℕ)
    → b < 256
    → c < 256
    → (a % 4 * 16 + b / 16) % 16 * 16 + (b % 16 * 4 + c / 64) / 4 ≡ b
split_four a b c hb hc = omega arith

split_four_last : (a b : ℕ) → b < 256 → (a % 4 * 16 + b / 16) % 16 * 16 + b % 16 * 4 / 4 ≡ b
split_four_last a b hb = omega arith

split_two : (b c : ℕ) → c < 256 → (b % 16 * 4 + c / 64) % 4 * 64 + c % 64 ≡ c
split_two b c hc = omega arith

decode_groups-encode : (s : Text) → All IsByte s → decode_groups (encode s) ≡ some s
unfolding encode
decode_groups-encode [] _ = unfold decode_groups in refl
decode_groups-encode (a ∷ []) (ha, _) =
    rw (group_two (a / 4) (a % 4 * 16) (omega arith) (omega arith), split_six_last a) refl
decode_groups-encode (a ∷ b ∷ []) (ha, (hb, _)) =
    rw
      (
        group_three (a / 4) (a % 4 * 16 + b / 16) (b % 16 * 4) (omega arith) (omega arith)
            (omega arith),
        split_six a b hb,
        split_four_last a b hb,
      )
      refl
decode_groups-encode (a ∷ b ∷ c ∷ s) (ha, (hb, (hc, hs))) =
    rw
      (
        group_four (a / 4) (a % 4 * 16 + b / 16) (b % 16 * 4 + c / 64) (c % 64) (encode s) s
            (omega arith) (omega arith) (omega arith) (omega arith) (decode_groups-encode s hs),
        split_six a b hb,
        split_four a b c hb hc,
        split_two b c hc,
      )
      refl

pub decode-encode : (s : Text) → All IsByte s → decode (encode s) ≡ some s
unfolding decode
decode-encode s h = rw (strip_breaks-encode s h) (decode_groups-encode s h)
