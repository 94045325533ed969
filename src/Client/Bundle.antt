-- ===== src/Client/Bundle.antt =====
-- sealedbundle.go: the committed bundle, its versions, and its accessors.
use gitseal.Prelude.{
  Bool, ◌||◌, not, Option, none, some, List, [], ◌∷◌, Text, text, text_eq, text_key, ℤ,
  if◌then◌else◌, Result, ok, err,
}
use gitseal.Prelude.Dict.{Dict, lookup, keys}
use gitseal.Base64

-- EnvSectionSig
pub record EnvSectionSig : Type 0 where
  pub by : Text
  pub sig : Text

-- EnvSection; a nil map or pointer is `none`.
pub record EnvSection : Type 0 where
  pub cluster : Text
  pub entries : Option (Dict Text Text)
  pub sig : Option EnvSectionSig

-- SealedBundle
pub record SealedBundle : Type 0 where
  pub kind : Text
  pub version : Text
  pub project_id : ℤ
  pub min_access_level : ℤ
  pub recipient : Text
  pub entries : Option (Dict Text Text)
  pub recipients : Option (Dict Text Text)
  pub envs : Option (Dict Text EnvSection)

-- reading a map that may be nil
abbrev pub or_nil {ℓ} : {V : Type ℓ} → Option (Dict Text V) → Dict Text V
or_nil none = []
or_nil (some d) = d

unfoldable pub is_per_env_version : Text → Bool
is_per_env_version v = text_eq v (text "v2") || text_eq v (text "v3") || text_eq v (text "v4")

-- Names
unfoldable pub names : SealedBundle → List Text
names b = keys (or_nil b.entries)

-- decodeEntry, of an entry that is there or not; nil is `none`
abbrev pub decode_entry : Option Text → Option Text
decode_entry none = none
decode_entry (some enc) = Base64.decode enc

-- Ciphertext
unfoldable pub ciphertext : SealedBundle → Text → Option Text
ciphertext b name = decode_entry (lookup name (or_nil b.entries))

abbrev pub entry_of : Option EnvSection → Text → Option Text
entry_of none name = none
entry_of (some sec) name = lookup name (or_nil sec.entries)

-- EnvCiphertext
unfoldable pub env_ciphertext : SealedBundle → Text → Text → Option Text
env_ciphertext b env name = decode_entry (entry_of (lookup env (or_nil b.envs)) name)

-- SelectCiphertext
unfoldable pub select_ciphertext : SealedBundle → Text → Text → Option Text
unfolding is_per_env_version
select_ciphertext b env name =
    if is_per_env_version b.version then env_ciphertext b env name else ciphertext b name

pub data ParseError : Type 0 where
  bad_json : ParseError
  not_a_bundle : Text → ParseError
  missing_envs : Text → ParseError
  missing_recipients_or_envs : ParseError

-- a nil entries map of a section becomes an empty one
unfoldable pub normalize : Dict Text EnvSection → Dict Text EnvSection
normalize [] = []
normalize ((env, sec) ∷ rest) =
    (env, record sec { entries = some (or_nil sec.entries) }) ∷ normalize rest

abbrev parse_v3 : SealedBundle → Option (Dict Text EnvSection) → Result ParseError SealedBundle
parse_v3 b none = err (missing_envs b.version)
parse_v3 b (some envs) = ok (record b { envs = some (normalize envs) })

abbrev parse_v2 :
    SealedBundle
    → Option (Dict Text Text)
    → Option (Dict Text EnvSection)
    → Result ParseError SealedBundle
parse_v2 b (some recipients) (some envs) = ok (record b { envs = some (normalize envs) })
parse_v2 b _ _ = err missing_recipients_or_envs

abbrev parse_decoded : Option SealedBundle → Result ParseError SealedBundle
parse_decoded none = err bad_json
parse_decoded (some b) =
    if not (text_eq b.kind (text "SealedBundle"))
    then err (not_a_bundle b.kind)
    else if text_eq b.version (text "v3") || text_eq b.version (text "v4")
    then parse_v3 b b.envs
    else if text_eq b.version (text "v2")
    then parse_v2 b b.recipients b.envs
    else ok (record b { entries = some (or_nil b.entries) })

-- ParseBundle; `unmarshal` is json.Unmarshal into a SealedBundle.
unfoldable pub parse_bundle : (Text → Option SealedBundle) → Text → Result ParseError SealedBundle
unfolding normalize
parse_bundle unmarshal data_bytes = parse_decoded (unmarshal data_bytes)
