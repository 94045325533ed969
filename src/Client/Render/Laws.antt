-- ===== src/Client/Render/Laws.antt =====
-- bundle.go: secrets printed as `env` and parsed again; render_secret.go: what the manifest leaves open.
use gitseal.Prelude.{
  ℕ, ◌≡◌, ◌≢◌, refl, Bool, true, false, ◌||◌, Option, none, some, List, [], ◌∷◌, ◌++◌, Text, text,
  text_key, text_eq, text_eq_iff, eqb, is_empty, any, All, All-append, strip_prefix, if◌then◌else◌,
  ok, arith, ap, sym, ◌∙◌, append_assoc, Bool-cases, inl, inr,
}
use gitseal.Prelude.Dict.{Dict, lookup, insert, keys, lookup-insert, lookup-nil}
use gitseal.Prelude.Sort.{sort_texts, any-sort_texts}
use gitseal.Strconv.{
  IsLine, IsSolid, IsTrimmed, is_space, trim_space, trim_left, trim_space-IsTrimmed,
  IsTrimmed-around, IsSolid-IsTrimmed, IsSolid-IsLine,
}
use gitseal.Client.Author.Total.{All-sort_texts}
use gitseal.Client.Author.Reseal.{is_there, any-keys}
use gitseal.Client.Render.{
  value_or_empty, secret_lines, render_secrets, split_newlines, cut_equals, strip_quotes, unquoted,
  split_last, without_export, add_line, parse_lines, parse_env,
}

abbrev pub first_is : ℕ → Text → Bool
first_is c [] = false
first_is c (d ∷ s) = eqb d c

-- A key and a value that `env` prints and reads as they are.
abbrev pub IsPlain : Text → Text → Type 0
IsPlain k v =
    All IsSolid k
    × IsLine v
    × IsTrimmed v
    × All (λ c. c ≢ b'=') k
    × (is_empty k ≡ false)
    × (first_is b'#' k ≡ false)
    × (first_is 34 v ≡ false)
    × (first_is 39 v ≡ false)

split_newlines-line :
    (line s : Text) → IsLine line → split_newlines (line ++ 10 ∷ s) ≡ line ∷ split_newlines s
unfolding split_newlines
split_newlines-line [] s _ = refl
split_newlines-line (c ∷ line) s (ne, h) = rw (split_newlines-line line s h) (ground arith)

cut_equals-key : (k v : Text) → All (λ c. c ≢ b'=') k → cut_equals (k ++ b'=' ∷ v) ≡ some (k, v)
unfolding cut_equals
cut_equals-key [] v _ = refl
cut_equals-key (c ∷ k) v (ne, h) = rw (cut_equals-key k v h) (ground arith)

strip_quotes-plain : (v : Text) → first_is 34 v ≡ false → first_is 39 v ≡ false → strip_quotes v ≡ v
unfolding strip_quotes
strip_quotes-plain [] _ _ = refl
strip_quotes-plain (c ∷ s) a b = by_last (split_last s)
  where
    by_last : (o : Option (Text × ℕ)) → unquoted (c ∷ s) c o ≡ c ∷ s
    by_last none = refl
    by_last (some (inner, last)) = rw (a, b) refl

-- A prefix that holds white space and no '=' does not reach past a key.
strip_prefix-key :
    (p k v : Text)
    → any is_space p ≡ true
    → any (eqb b'=') p ≡ false
    → All IsSolid k
    → strip_prefix p (k ++ b'=' ∷ v) ≡ none
unfolding strip_prefix
strip_prefix-key [] k v space _ _ = cc
strip_prefix-key (a ∷ p) [] v _ bare _ = ground arith
strip_prefix-key (a ∷ p) (b ∷ k) v space bare ((hb, low), hk) = elim (Bool-cases (eqb a b)) [
  | inl same ↦ rw (same) (strip_prefix-key p k v (ground arith) (ground arith) hk)
  | inr other ↦ rw (other) refl
]

without_export-key : (k v : Text) → All IsSolid k → without_export (k ++ b'=' ∷ v) ≡ k ++ b'=' ∷ v
unfolding without_export
without_export-key k v h = rw (strip_prefix-key (text "export ") k v refl refl h) refl

-- What one printed line adds.
add_line-plain :
    (k v : Text) (m : Dict Text Text)
    → IsPlain k v
    → add_line (trim_space (k ++ b'=' ∷ v)) m ≡ insert k v m
unfolding add_line
add_line-plain [] v m (_, _, _, _, filled, _, _, _) = cc
add_line-plain (c ∷ k) v m ((hc, hk), _, (first, last), he, filled, hash, q, q') =
    rw
      (
        trim_space-IsTrimmed (c ∷ k ++ b'=' ∷ v)
            (IsTrimmed-around c b'=' k v hc (refl, omega arith) last),
        without_export-key (c ∷ k) v (hc, hk),
        cut_equals-key (c ∷ k) v he,
        trim_space-IsTrimmed (c ∷ k) (IsSolid-IsTrimmed (c ∷ k) (hc, hk)),
        trim_space-IsTrimmed v (first, last),
        strip_quotes-plain v q q',
        hash,
      )
      refl

add_line-blank : (m : Dict Text Text) → add_line (trim_space []) m ≡ m
unfolding add_line trim_space trim_left
add_line-blank m = refl

abbrev value_of : Dict Text Text → Text → Text
value_of secrets k = value_or_empty (lookup k secrets)

parse_lines-secret_lines :
    (secrets : Dict Text Text) (ks : List Text) (m : Dict Text Text) (name : Text)
    → All (λ k. IsPlain k (value_of secrets k)) ks
    → lookup name (parse_lines (split_newlines (secret_lines (text "=") secrets ks)) m)
      ≡ (if any (text_eq name) ks then some (value_of secrets name) else lookup name m)
unfolding secret_lines parse_lines
parse_lines-secret_lines secrets [] m name _ =
    unfold split_newlines in ap (lookup name) (add_line-blank m)
parse_lines-secret_lines secrets (k ∷ ks) m name (plain, rest) =
    let v : Text = value_of secrets k in
    let (hk, hv, _, _, _, _, _, _) = plain in
    let line : IsLine (k ++ b'=' ∷ v) =
      All-append _ k (b'=' ∷ v) (IsSolid-IsLine k hk) (omega arith, hv) in
    let printed : Text = secret_lines (text "=") secrets ks in
    let cut : split_newlines (k ++ (b'=' ∷ (v ++ (10 ∷ printed))))
        ≡ (k ++ b'=' ∷ v) ∷ split_newlines printed =
      ap split_newlines (sym (append_assoc k (b'=' ∷ v) (10 ∷ printed)))
      ∙ split_newlines-line (k ++ b'=' ∷ v) printed line in
    ap (λ (ls : List Text). lookup name (parse_lines ls m)) cut
    ∙ ap (λ (d : Dict Text Text). lookup name (parse_lines (split_newlines printed) d))
        (add_line-plain k v m plain)
    ∙ parse_lines-secret_lines secrets ks (insert k v m) name rest
    ∙ rw (lookup-insert name k v m)
        (same_name k name secrets (any (text_eq name) ks) (lookup name m))
  where
    same_name :
        (k name : Text) (secrets : Dict Text Text) (later : Bool) (o : Option Text)
        → (if later
            then some (value_of secrets name)
            else if text_eq k name
            then some (value_of secrets k)
            else o)
          ≡ (if text_eq name k || later then some (value_of secrets name) else o)
    same_name k name secrets later o = ground (arith, text_eq_iff k name, text_eq_iff name k)

is_there_value :
    (name : Text) (o : Option Text) → (if is_there o then some (value_or_empty o) else none) ≡ o
is_there_value name none = refl
is_there_value name (some v) = refl

-- Secrets printed in the format env and parsed again are the same map, under conditions. A key is not
-- empty, all ASCII with no white space and no '=', and does not begin with '#'. A value may hold any
-- bytes but a newline; it neither begins nor ends with white space, Unicode's included, and does not
-- begin with a quote.
pub parse_env-render_secrets :
    (marshal : Dict Text Text → Text) (secrets : Dict Text Text) (name : Text)
    → All (λ k. IsPlain k (value_or_empty (lookup k secrets))) (keys secrets)
    → (printed : Text) × (render_secrets marshal secrets (text "env") ≡ ok printed)
      × (lookup name (parse_env printed) ≡ lookup name secrets)
unfolding render_secrets parse_env text_eq
parse_env-render_secrets marshal secrets name plain =
    let ks = sort_texts (keys secrets) in
    (
      secret_lines (text "=") secrets ks,
      refl,
      parse_lines-secret_lines secrets ks [] name (
            All-sort_texts (λ k. IsPlain k (value_or_empty (lookup k secrets))) (keys secrets)
              plain)
          ∙ rw
              (
                any-sort_texts (text_eq name) (keys secrets),
                any-keys name secrets,
                lookup-nil {K = Text} {V = Text} name,
              )
              (is_there_value name (lookup name secrets)),
    )
