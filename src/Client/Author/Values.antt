-- ===== src/Client/Author/Values.antt =====
-- crypto/v4.go under base64: one value, sealed to two recipients and opened again.
use mathlib.Core.Path.{subst}
use mathlib.Core.Option.{some-injective}
use gitseal.Prelude.{
  ℕ, ◌≡◌, ◌≤◌, ◌<◌, refl, Bool, true, false, some, [], ◌∷◌, ◌++◌, Text, text_key, text_eq,
  text_eq_iff, pos, All, All-append, if◌then◌else◌, ok, arith, sym, ◌∙◌, ok-inj, require-eq-ok,
}
use gitseal.Prelude.Dict.{Dict, lookup}
use gitseal.Strconv.{IsLine, max_int64, format_int, format_int_bytes}
use gitseal.Base64
use gitseal.Base64.{IsByte}
use gitseal.Age.{Age, AgeLaws, listed}
use gitseal.Crypto.Errors.{encrypt_failed}
use gitseal.Crypto.Headers.{recipient_header_prefix, level_header_prefix, name_header_prefix}
use gitseal.Crypto.Seal.{seal_multi_v4, parse_recipients, envelope_v4}
use gitseal.Crypto.Open.{open_verified_by_key}
use gitseal.Crypto.RoundtripV4.{seal_multi_v4_lem, open_verified_by_key-seal_multi_v4}

pub parse_recipients-pair :
    (age : Age) (h r ph pr : Text)
    → age.parse_recipient h ≡ some ph
    → age.parse_recipient r ≡ some pr
    → parse_recipients age 0 (h ∷ r ∷ []) ≡ ok (ph ∷ pr ∷ [])
unfolding parse_recipients
parse_recipients-pair age h r ph pr eh er = rw (eh, er) refl

ascii_bytes : (s : Text) → All (λ c. c < 128) s → All IsByte s
ascii_bytes [] _ = tt
ascii_bytes (c ∷ s) (low, lows) = (omega arith, ascii_bytes s lows)

envelope_v4_bytes :
    (plain owner name : Text) (n : ℕ)
    → All IsByte plain
    → All (λ c. c < 128) owner
    → All IsByte name
    → All IsByte (envelope_v4 plain owner name (pos n))
envelope_v4_bytes plain owner name n hp ho hn =
    let body : All IsByte (name ++ (10 ∷ 10 ∷ plain)) =
      All-append _ name _ hn (omega arith, (omega arith, hp)) in
    let tail : All IsByte
        (format_int (pos n) ++ (10 ∷ (name_header_prefix ++ (name ++ (10 ∷ 10 ∷ plain))))) =
      All-append _ (format_int (pos n)) _ (format_int_bytes n)
        (omega arith, All-append _ name_header_prefix _ (omega arith) body) in
    All-append _ recipient_header_prefix _ (omega arith) (
      All-append _ owner _ (ascii_bytes owner ho)
        (omega arith, All-append _ level_header_prefix _ (omega arith) tail))

-- A name of one line, and a name and a value made of bytes.
abbrev pub IsSealable : Text × Text → Type 0
IsSealable (name, val) = IsLine name × All IsByte name × All IsByte val

pub All-lookup :
    (d : Dict Text Text) (name val : Text)
    → All IsSealable d
    → lookup name d ≡ some val
    → IsSealable (name, val)
unfolding lookup
All-lookup [] name val _ e = cc
All-lookup ((k, v) ∷ d) name val (h, hs) e =
    found (text_eq k name) refl (All-lookup d name val hs) e
  where
    found :
        (b : Bool)
        → text_eq k name ≡ b
        → (lookup name d ≡ some val → IsSealable (name, val))
        → (if b then some v else lookup name d) ≡ some val
        → IsSealable (name, val)
    found true t rest e' =
        subst (λ n. IsSealable (n, val)) ((text_eq_iff k name).0 t)
          (subst (λ w. IsSealable (k, w)) (some-injective v val e') h)
    found false t rest e' = rest e'

module _ (age : Age) (laws : AgeLaws age) where
  -- One value: its sealed text decodes to a ciphertext that a listed identity opens to the value.
  pub sealed_value :
      (coins : ℕ) (human recip ph pr name val ct identity id : Text) (n : ℕ)
      → 30 ≤ n
      → n ≤ max_int64
      → IsSealable (name, val)
      → age.parse_recipient human ≡ some ph
      → age.parse_recipient recip ≡ some pr
      → age.parse_identity identity ≡ some id
      → listed (age.recipient_of id) (ph ∷ pr ∷ []) ≡ true
      → seal_multi_v4 age coins val (human ∷ recip ∷ []) human name (pos n) ≡ ok ct
      → (Base64.decode (Base64.encode ct) ≡ some ct)
        × (open_verified_by_key age ct identity human ≡ ok (val, pos n))
  sealed_value coins human recip ph pr name val ct identity id n low high (line, bn, bv) eh er ei m
        s =
      let parsed = parse_recipients-pair age human recip ph pr eh er in
      let (c, sealed, opened) =
        open_verified_by_key-seal_multi_v4 age laws coins val (human ∷ recip ∷ []) (ph ∷ pr ∷ [])
          human ph name n identity id low high line eh refl parsed ei m in
      let same : c ≡ ct = ok-inj (sym sealed ∙ s) in
      let encrypted : age.encrypt coins (ph ∷ pr ∷ []) (envelope_v4 val human name (pos n))
          ≡ some ct =
        require-eq-ok _ encrypt_failed ct (
          sym (
            seal_multi_v4_lem age laws coins val (human ∷ recip ∷ []) (ph ∷ pr ∷ []) human ph name n
              (omega arith) eh refl parsed)
          ∙ s) in
      let bytes : All IsByte ct =
        laws.bytes coins (ph ∷ pr ∷ []) (envelope_v4 val human name (pos n)) ct encrypted
          (envelope_v4_bytes val human name n bv (laws.ascii human ph eh).0 bn)
          ((laws.ascii human ph eh).1, ((laws.ascii recip pr er).1, tt)) in
      (
        Base64.Roundtrip.decode-encode ct bytes,
        subst (λ t. open_verified_by_key age t identity human ≡ ok (val, pos n)) same opened,
      )
