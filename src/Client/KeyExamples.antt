-- ===== src/Client/KeyExamples.antt =====
-- A key file, a directory of two files, and an env that is set and resolved.
use gitseal.Prelude.{
  All, ◌≡◌, refl, Bool, true, false, Option, none, some, List, [], ◌∷◌, Text, text, text_key,
  text_eq, int_key, ℤ, pos, ok, if◌then◌else◌, arith,
}
use gitseal.Prelude.Dict.{Dict, lookup, insert, keys}
use gitseal.Prelude.Sort.{sort_texts, insert_sorted, text_leb}
use gitseal.Base64.{encode, decode, encode_sextet, decode_sextet, decode_groups, strip_breaks}
use gitseal.Age.{toy}
use gitseal.Age.Toy.{parse}
use gitseal.Crypto.KeyWrap.{SecretBox}
use gitseal.Client.Authz.Scan.{ends_with}
use gitseal.Client.Config.{RepoConfig}
use gitseal.Client.KeyFile.{
  KeyFile, new_key_file_v2, identity, raw_identity, parse_key_file, load_names, key_file_names,
  load_key_dir,
}
use gitseal.Client.KeyFile.Laws.{FromFile, load_key_dir-FromFile}
use gitseal.Client.Render.{render_secrets, parse_env, value_or_empty}
use gitseal.Client.Render.Laws.{IsPlain, parse_env-render_secrets}
use gitseal.Client.Snapshot.{
  RegistryEnv, ProjectRegistry, entry, set_env_v2, load_snapshot, resolve_repo_config, bare_config,
}
use gitseal.Client.Snapshot.Laws.{ReadsEnv, project_envs, resolve_repo_config-set_env_v2}

-- a box that keeps its message
abbrev box : SecretBox
box = record {
  seal_box = λ nonce key message. message;
  open_box = λ nonce key sealed. some sealed;
  open-seal = λ nonce key message. refl;
}

h_parses : toy.parse_identity (text "h") ≡ some (text "h")
unfolding parse
h_parses = refl

abbrev dir : List (Text × Bool)
dir = (text "7.key.json", false) ∷ (text "bad.key.json", false) ∷ (text "notes", false) ∷ []

abbrev read : Text → Option KeyFile
read name =
    if text_eq name (text "7.key.json") then some (new_key_file_v2 (pos 7) (text "h")) else none

abbrev ids : Dict ℤ Text
ids = (pos 7, text "h") ∷ []

loaded : load_key_dir toy box read dir ≡ (some ids, text "bad.key.json" ∷ [])
unfolding load_key_dir load_names key_file_names parse_key_file identity raw_identity
    new_key_file_v2 ends_with sort_texts insert_sorted text_leb text_eq insert parse decode
    decode_groups strip_breaks decode_sextet encode encode_sextet
loaded = refl

held : lookup (pos 7) ids ≡ some (text "h")
unfolding lookup
held = refl

load_key_dir-FromFile_example :
    FromFile toy box read (key_file_names dir) (pos 7) (text "h")
    × ((parsed : Text) × (toy.parse_identity (text "h") ≡ some parsed))
load_key_dir-FromFile_example =
    load_key_dir-FromFile toy box read dir ids (text "bad.key.json" ∷ []) (pos 7) (text "h") loaded
      held

abbrev cfg : RegistryEnv
cfg = record {
  cluster = text "c";
  namespace = text "demo";
  min_level = pos 40;
  recipient = text "r";
}

abbrev registry : ProjectRegistry
registry = (text "h", record { project_id = pos 7; envs = some ((text "prod", cfg) ∷ []) }) ∷ []

abbrev rc : RepoConfig
rc = bare_config (pos 0) (text "h")

set : set_env_v2 [] (text "h") (pos 7) (text "prod") cfg ≡ ok registry
unfolding set_env_v2 entry lookup insert
set = refl

abbrev unmarshal : Text → Option ProjectRegistry
unmarshal body = some registry

-- the broker is down and the cache has a body
from_cache : (load_snapshot unmarshal none true (some (text "cached"))).0 ≡ ok registry
unfolding load_snapshot
from_cache = refl

resolve_repo_config-set_env_v2_example :
    (resolved : RepoConfig) × (resolve_repo_config unmarshal none true (some (text "cached")) rc
      ≡ ok resolved)
    × (resolved.recipient ≡ rc.recipient)
    × (resolved.min_access_level ≡ rc.min_access_level)
    × ReadsEnv resolved (text "prod") (
        if text_eq (text "prod") (text "prod")
        then some cfg
        else lookup (text "prod") (project_envs (lookup rc.recipient [])))
resolve_repo_config-set_env_v2_example =
    resolve_repo_config-set_env_v2 unmarshal none true (some (text "cached")) [] registry (pos 7)
      (text "prod") (text "prod") cfg rc set from_cache refl refl

abbrev secrets : Dict Text Text
secrets = (text "B", text "two words") ∷ (text "A", 120 ∷ 194 ∷ 160 ∷ 61 ∷ 49 ∷ []) ∷ []

plain : All (λ k. IsPlain k (value_or_empty (lookup k secrets))) (keys secrets)
unfolding lookup text_eq keys
plain = (
  (((refl, omega arith), tt), omega arith, (refl, refl), omega arith, refl, refl, refl, refl),
  ((((refl, omega arith), tt), omega arith, (refl, refl), omega arith, refl, refl, refl, refl), tt),
)

parse_env-render_secrets_example :
    (printed : Text) × (render_secrets (λ m. []) secrets (text "env") ≡ ok printed)
    × (lookup (text "A") (parse_env printed) ≡ lookup (text "A") secrets)
parse_env-render_secrets_example = parse_env-render_secrets (λ m. []) secrets (text "A") plain
