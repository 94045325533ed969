-- ===== src/Client/Snapshot.antt =====
-- registry_edit.go and snapshot.go: the editing of projects.json, and a repository's configuration out of
-- the registry that the broker serves.
pub mod Laws
use gitseal.Prelude.{
  ℕ, Bool, true, false, not, ◌&&◌, ◌||◌, Option, none, some, List, [], ◌∷◌, Text, text, text_key,
  text_eq, ℤ, pos, eqb_ℤ, leb_ℤ, ltb_ℤ, eqb, is_empty, if◌then◌else◌, Result, ok, err, ◌>>=◌, ◌>>◌,
  refuse_if, require,
}
use gitseal.Prelude.Dict.{Dict, lookup, insert, erase}
use gitseal.Client.Config.{RepoConfig}

-- RegistryEnv
pub record RegistryEnv : Type 0 where
  pub cluster : Text
  pub namespace : Text
  pub min_level : ℤ
  pub recipient : Text

-- RegistryProjectEntry, as it is written: the legacy maps are dropped on reading.
pub record RegistryProjectEntry : Type 0 where
  pub project_id : ℤ
  pub envs : Option (Dict Text RegistryEnv)

-- ProjectRegistry
abbrev pub ProjectRegistry : Type 0
ProjectRegistry = Dict Text RegistryProjectEntry

pub data RegistryError : Type 0 where
  other_identity : ℤ → ℤ → RegistryError
  no_recipient no_namespace no_cluster no_min_level : Text → RegistryError
  unknown_project unknown_env : Text → RegistryError

abbrev pub envs_of : Option (Dict Text RegistryEnv) → Dict Text RegistryEnv
envs_of none = []
envs_of (some envs) = envs

-- the raw entry with its legacy maps, as json decodes it
pub record RawEntry : Type 0 where
  pub raw : RegistryProjectEntry
  pub env_cluster : Dict Text Text
  pub env_min_level : Dict Text ℤ
  pub cluster_recipients : Dict Text Text

abbrev pub text_or_blank : Option Text → Text
text_or_blank none = []
text_or_blank (some s) = s

abbrev pub level_or_zero : Option ℤ → ℤ
level_or_zero none = pos 0
level_or_zero (some n) = n

unfoldable pub derive_envs : Dict Text ℤ → Dict Text Text → Dict Text Text → Dict Text RegistryEnv
derive_envs levels recipients [] = []
derive_envs levels recipients ((env, cluster) ∷ rest) =
    insert env
      (record {
        cluster = cluster;
        namespace = [];
        min_level = level_or_zero (lookup env levels);
        recipient = text_or_blank (lookup cluster recipients);
      })
      (derive_envs levels recipients rest)

-- UnmarshalJSON, after the decoding
unfoldable pub unmarshal_entry : RawEntry → RegistryProjectEntry
unfolding derive_envs
unmarshal_entry e = of_envs e.raw.envs
  where
    of_envs : Option (Dict Text RegistryEnv) → RegistryProjectEntry
    of_envs (some envs) = e.raw
    of_envs none = if is_empty e.env_cluster then e.raw else record e.raw {
      envs = some (derive_envs e.env_min_level e.cluster_recipients e.env_cluster);
    }

abbrev pub checked_entry : ℤ → RegistryProjectEntry → Result RegistryError RegistryProjectEntry
checked_entry project_id e =
    refuse_if
      (not (eqb_ℤ project_id (pos 0))
        && (not (eqb_ℤ e.project_id (pos 0)) && not (eqb_ℤ e.project_id project_id)))
      (other_identity e.project_id project_id)
    >> ok (record e { envs = some (envs_of e.envs) })

abbrev pub entry_or_new :
    ℤ → Option RegistryProjectEntry → Result RegistryError RegistryProjectEntry
entry_or_new project_id none = ok (record { project_id = project_id; envs = some [] })
entry_or_new project_id (some e) = checked_entry project_id e

-- entry
unfoldable pub entry : ProjectRegistry → Text → ℤ → Result RegistryError RegistryProjectEntry
entry r pub_key project_id = entry_or_new project_id (lookup pub_key r)

-- SetEnvV2
unfoldable pub set_env_v2 :
    ProjectRegistry → Text → ℤ → Text → RegistryEnv → Result RegistryError ProjectRegistry
unfolding entry
set_env_v2 r pub_key project_id env cfg = do
  e ← entry r pub_key project_id
  refuse_if (is_empty cfg.recipient) (no_recipient env)
  refuse_if (is_empty cfg.namespace) (no_namespace env)
  refuse_if (is_empty cfg.cluster) (no_cluster env)
  refuse_if (leb_ℤ cfg.min_level (pos 0)) (no_min_level env)
  ok (insert pub_key (record e { envs = some (insert env cfg (envs_of e.envs)) }) r)

-- RemoveEnv
unfoldable pub remove_env : ProjectRegistry → Text → Text → Result RegistryError ProjectRegistry
remove_env r pub_key env = do
  e ← require (lookup pub_key r) (unknown_project pub_key)
  _present ← require (lookup env (envs_of e.envs)) (unknown_env env)
  ok (insert pub_key (record e { envs = some (erase env (envs_of e.envs)) }) r)

-- FetchProjectConfig's loop over the envs
unfoldable pub fill_envs : Dict Text RegistryEnv → RepoConfig → RepoConfig
fill_envs [] rc = rc
fill_envs ((env, cfg) ∷ envs) rc =
    let rest = fill_envs envs rc in
    record rest {
      env_recipient = insert env cfg.recipient rest.env_recipient;
      env_namespace = insert env cfg.namespace rest.env_namespace;
      env_cluster = insert env cfg.cluster rest.env_cluster;
      env_min_level = insert env cfg.min_level rest.env_min_level;
    }

abbrev pub bare_config : ℤ → Text → RepoConfig
bare_config project_id recipient = record {
  project_id = project_id;
  recipient = recipient;
  min_access_level = pos 0;
  clusters = [];
  env_cluster = [];
  env_min_level = [];
  env_recipient = [];
  env_namespace = [];
}

pub data SnapshotError : Type 0 where
  unreachable no_usable_cache missing_recipient : SnapshotError
  not_found : Text → SnapshotError

-- What FetchProjectConfig makes of a snapshot.
unfoldable pub project_config : ProjectRegistry → Text → Result SnapshotError RepoConfig
unfolding fill_envs
project_config snap pub_key = do
  p ← require (lookup pub_key snap) (not_found pub_key)
  ok (fill_envs (envs_of p.envs) (bare_config p.project_id pub_key))

-- The broker's answer: `none` for a transport error, else the status and the body, `none` where
-- reading it fails.
abbrev pub Response : Type 0
Response = Option (ℕ × Option Text)

module _ (unmarshal : Text → Option ProjectRegistry) where
  abbrev pub fetched : Response → Option (Text × ProjectRegistry)
  fetched none = none
  fetched (some (status, none)) = none
  fetched (some (status, some body)) = if eqb status 200 then parsed body (unmarshal body) else none
    where
      parsed : Text → Option ProjectRegistry → Option (Text × ProjectRegistry)
      parsed body none = none
      parsed body (some snap) = some (body, snap)

  abbrev pub cached : Option Text → Option ProjectRegistry
  cached none = none
  cached (some body) = unmarshal body

  -- a cached registry, or the error of the fetch
  abbrev pub from_cache : Response → Option ProjectRegistry → Result SnapshotError ProjectRegistry
  from_cache response (some snap) = ok snap
  from_cache none none = err unreachable
  from_cache (some _) none = err no_usable_cache

  -- loadSnapshot: the snapshot, and the cache's content afterwards. `has_path` tells whether there is
  -- a cache path; the write of the cache succeeds here.
  unfoldable pub load_snapshot :
      Response → Bool → Option Text → Result SnapshotError ProjectRegistry × Option Text
  load_snapshot response has_path cache = of_fetched (fetched response)
    where
      of_fetched :
          Option (Text × ProjectRegistry) → Result SnapshotError ProjectRegistry × Option Text
      of_fetched (some (body, snap)) = (ok snap, if has_path then some body else cache)
      of_fetched none = (from_cache response (cached (if has_path then cache else none)), cache)

  -- FetchProjectConfig
  unfoldable pub fetch_project_config :
      Response → Bool → Option Text → Text → Result SnapshotError RepoConfig
  unfolding load_snapshot project_config
  fetch_project_config response has_path cache pub_key =
      (load_snapshot response has_path cache).0 >>= λ snap. project_config snap pub_key

  -- ResolveRepoConfig, after LoadRepoConfig
  unfoldable pub resolve_repo_config :
      Response → Bool → Option Text → RepoConfig → Result SnapshotError RepoConfig
  unfolding fetch_project_config
  resolve_repo_config response has_path cache rc =
      if is_empty rc.recipient
      then err missing_recipient
      else if ltb_ℤ (pos 0) rc.project_id
          && (not (is_empty rc.env_cluster) && not (is_empty rc.clusters))
      then ok rc
      else (fetch_project_config response has_path cache rc.recipient >>= λ cfg.
          ok (record cfg { min_access_level = rc.min_access_level }))
