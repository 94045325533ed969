-- ===== src/Client/Mint.antt =====
-- mint_env_keys.go: fresh keys for the envs of a topology. `generate` is GenerateRepoKey, at an env.
use gitseal.Prelude.{Option, none, some, List, [], ◌∷◌, Text, text_key, pos}
use gitseal.Prelude.Dict.{Dict, lookup, insert, keys}
use gitseal.Prelude.Sort.{sort_texts}
use gitseal.Controller.{KeyPair}
use gitseal.Client.Snapshot.{RegistryEnv}

-- the envs and the identities, or the error of a generation
abbrev pub Minted : Type 0
Minted = Dict Text RegistryEnv × Dict Text Text

-- topology[env], the zero env where it is absent
abbrev pub env_or_zero : Option RegistryEnv → Text → RegistryEnv
env_or_zero none recipient = record {
  cluster = [];
  namespace = [];
  min_level = pos 0;
  recipient = recipient;
}
env_or_zero (some t) recipient = record t { recipient = recipient }

abbrev pub add_minted : Text → Option RegistryEnv → Option KeyPair → Minted → Option Minted
add_minted env t none acc = none
add_minted env t (some kp) (envs, identities) =
    some (insert env (env_or_zero t kp.recipient) envs, insert env kp.identity identities)

abbrev pub after_minted : Option Minted → (Minted → Option Minted) → Option Minted
after_minted none next = none
after_minted (some acc) next = next acc

unfoldable pub mint_envs :
    (Text → Option KeyPair) → Dict Text RegistryEnv → List Text → Minted → Option Minted
mint_envs generate topology [] acc = some acc
mint_envs generate topology (env ∷ envs) acc =
    after_minted (add_minted env (lookup env topology) (generate env) acc)
      (mint_envs generate topology envs)

-- MintEnvMaterializerKeys
unfoldable pub mint_env_materializer_keys :
    (Text → Option KeyPair) → Dict Text RegistryEnv → Option Minted
unfolding mint_envs
mint_env_materializer_keys generate topology =
    mint_envs generate topology (sort_texts (keys topology)) ([], [])
