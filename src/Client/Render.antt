-- ===== src/Client/Render.antt =====
-- render_secret.go and bundle.go: the manifest of a Secret, and the text formats of plain secrets.
pub mod Laws
use gitseal.Prelude.{
  ℕ, suc, Bool, true, false, not, ◌&&◌, ◌||◌, Option, none, some, List, [], ◌∷◌, ◌++◌, Text, text,
  text_key, text_eq, eqb, is_empty, strip_prefix, if◌then◌else◌, Result, ok, err,
}
use gitseal.Prelude.Dict.{Dict, lookup, insert, keys}
use gitseal.Prelude.Sort.{sort_texts}
use gitseal.Strconv.{trim_space}
use gitseal.Base64
use gitseal.Client.Authz.Scan.{ends_with}
use gitseal.Client.Materialize.{K8sSecret}

abbrev pub managed_by_label_key : Text
managed_by_label_key = text "app.kubernetes.io/managed-by"

abbrev pub managed_by_label_value : Text
managed_by_label_value = text "gitseal-materializer"

-- d[k] of a map, the empty text where the key is absent
abbrev pub value_or_empty : Option Text → Text
value_or_empty none = []
value_or_empty (some v) = v

-- the lines of `data:`, in the order of the keys
unfoldable pub data_lines : Dict Text Text → List Text → Text
data_lines found [] = []
data_lines found (k ∷ ks) =
    text "  "
    ++ (k
        ++ (text ": "
            ++ (Base64.encode (value_or_empty (lookup k found)) ++ (10 ∷ data_lines found ks))))

abbrev pub data_block : Dict Text Text → Text
data_block [] = text "data: {}\n"
data_block (e ∷ found) = text "data:\n" ++ data_lines (e ∷ found) (sort_texts (keys (e ∷ found)))

-- RenderSecretYAML
unfoldable pub render_secret_yaml : K8sSecret → Text
unfolding data_lines
render_secret_yaml s =
    text "apiVersion: v1\nkind: Secret\nmetadata:\n  name: "
    ++ (s.name
        ++ (text "\n  namespace: "
            ++ (s.namespace
                ++ (text "\n  labels:\n    "
                    ++ (managed_by_label_key
                        ++ (text ": "
                            ++ (managed_by_label_value
                                ++ (text "\ntype: "
                                    ++ (s.type_name ++ (10 ∷ data_block s.contents))))))))))

-- The lines of RenderSecrets: `sep` stands between a key and its value.
unfoldable pub secret_lines : Text → Dict Text Text → List Text → Text
secret_lines sep secrets [] = []
secret_lines sep secrets (k ∷ ks) =
    k ++ (sep ++ (value_or_empty (lookup k secrets) ++ (10 ∷ secret_lines sep secrets ks)))

pub data FormatError : Type 0 where
  unknown_format : Text → FormatError

-- RenderSecrets; `marshal` is json.MarshalIndent of the map.
unfoldable pub render_secrets :
    (Dict Text Text → Text) → Dict Text Text → Text → Result FormatError Text
unfolding secret_lines
render_secrets marshal secrets format =
    if text_eq format (text "env")
    then ok (secret_lines (text "=") secrets (sort_texts (keys secrets)))
    else if text_eq format (text "json")
    then ok (marshal secrets)
    else if text_eq format (text "yaml")
    then ok (secret_lines (text ": ") secrets (sort_texts (keys secrets)))
    else err (unknown_format format)

-- strings.Split(s, "\n"): a byte joins the first of the lines that follow
abbrev pub onto_first : ℕ → List Text → List Text
onto_first c [] = (c ∷ []) ∷ []
onto_first c (line ∷ lines) = (c ∷ line) ∷ lines

unfoldable pub split_newlines : Text → List Text
split_newlines [] = [] ∷ []
split_newlines (c ∷ s) =
    let rest = split_newlines s in if eqb c 10 then [] ∷ rest else onto_first c rest

-- line[:eq] and line[eq+1:] at the first '='
abbrev pub onto_key : ℕ → Option (Text × Text) → Option (Text × Text)
onto_key c none = none
onto_key c (some (k, v)) = some (c ∷ k, v)

unfoldable pub cut_equals : Text → Option (Text × Text)
cut_equals [] = none
cut_equals (c ∷ s) = let rest = cut_equals s in if eqb c b'=' then some ([], s) else onto_key c rest

-- the text without its last byte, and that byte
abbrev pub onto_init : ℕ → Option (Text × ℕ) → Option (Text × ℕ)
onto_init c none = some ([], c)
onto_init c (some (s, last)) = some (c ∷ s, last)

unfoldable pub split_last : Text → Option (Text × ℕ)
split_last [] = none
split_last (c ∷ s) = onto_init c (split_last s)

abbrev pub unquoted : Text → ℕ → Option (Text × ℕ) → Text
unquoted v c none = v
unquoted v c (some (inner, last)) = if (eqb c 34 || eqb c 39) && eqb last c then inner else v

-- matching quotes around a value of at least two bytes are stripped
unfoldable pub strip_quotes : Text → Text
unfolding split_last
strip_quotes [] = []
strip_quotes (c ∷ s) = unquoted (c ∷ s) c (split_last s)

abbrev pub or_whole : Text → Option Text → Text
or_whole line none = line
or_whole line (some rest) = rest

-- strings.TrimPrefix(line, "export ")
unfoldable pub without_export : Text → Text
without_export line = or_whole line (strip_prefix (text "export ") line)

abbrev pub is_comment : Text → Bool
is_comment [] = true
is_comment (c ∷ s) = eqb c b'#'

abbrev pub add_pair : Option (Text × Text) → Dict Text Text → Dict Text Text
add_pair none m = m
add_pair (some (k, v)) m =
    if is_empty (trim_space k) then m else insert (trim_space k) (strip_quotes (trim_space v)) m

-- one line, already trimmed
unfoldable pub add_line : Text → Dict Text Text → Dict Text Text
unfolding cut_equals without_export strip_quotes
add_line line m = if is_comment line then m else add_pair (cut_equals (without_export line)) m

unfoldable pub parse_lines : List Text → Dict Text Text → Dict Text Text
unfolding add_line
parse_lines [] m = m
parse_lines (raw ∷ lines) m = parse_lines lines (add_line (trim_space raw) m)

-- parseEnv
unfoldable pub parse_env : Text → Dict Text Text
unfolding parse_lines split_newlines
parse_env s = parse_lines (split_newlines s) []

-- FormatFromPath
unfoldable pub format_from_path : Text → Text
format_from_path path =
    if ends_with (text ".env") path || ends_with (text ".envrc") path
    then text "env"
    else if ends_with (text ".json") path
    then text "json"
    else if ends_with (text ".yaml") path || ends_with (text ".yml") path
    then text "yaml"
    else text "env"

-- ParseSource, with json.Unmarshal and yaml.Unmarshal as arguments
pub data SourceError : Type 0 where
  bad_source : SourceError
  unknown_source : Text → SourceError

abbrev pub decoded : Option (Dict Text Text) → Result SourceError (Dict Text Text)
decoded none = err bad_source
decoded (some m) = ok m

unfoldable pub parse_source :
    (Text → Option (Dict Text Text))
    → (Text → Option (Dict Text Text))
    → Text
    → Text
    → Result SourceError (Dict Text Text)
unfolding parse_env
parse_source json yaml s format =
    if text_eq format (text "env")
    then ok (parse_env s)
    else if text_eq format (text "json")
    then decoded (json s)
    else if text_eq format (text "yaml")
    then decoded (yaml s)
    else err (unknown_source format)
