-- ===== src/Client/Config.antt =====
-- seal.go: the repository's policy.
use gitseal.Prelude.{
  Option, none, some, Text, text_key, ℤ, pos, ltb_ℤ, if◌then◌else◌, Result, ok, ◌>>=◌, require,
}
use gitseal.Prelude.Dict.{Dict, lookup}

-- RepoConfig
pub record RepoConfig : Type 0 where
  pub project_id : ℤ
  pub recipient : Text
  pub min_access_level : ℤ
  pub clusters : Dict Text Text
  pub env_cluster : Dict Text Text
  pub env_min_level : Dict Text ℤ
  pub env_recipient : Dict Text Text
  pub env_namespace : Dict Text Text

abbrev pub default_developer_level : ℤ
default_developer_level = pos 30

-- MinAccessLevelOrDefault
unfoldable pub min_access_level_or_default : RepoConfig → ℤ
min_access_level_or_default rc =
    if ltb_ℤ (pos 0) rc.min_access_level then rc.min_access_level else default_developer_level

abbrev pub listed_level : Option ℤ → ℤ → ℤ
listed_level none fallback = fallback
listed_level (some level) fallback = if ltb_ℤ (pos 0) level then level else fallback

-- MinLevelForEnv
unfoldable pub min_level_for_env : RepoConfig → Text → ℤ
unfolding min_access_level_or_default
min_level_for_env rc env =
    listed_level (lookup env rc.env_min_level) (min_access_level_or_default rc)

pub data ClusterError : Type 0 where
  no_cluster : Text → ClusterError
  no_recipient : Text → ClusterError

-- ClusterForEnv: the cluster and its recipient
unfoldable pub cluster_for_env : RepoConfig → Text → Result ClusterError (Text × Text)
cluster_for_env rc env = do
  name ← require (lookup env rc.env_cluster) (no_cluster env)
  recipient ← require (lookup name rc.clusters) (no_recipient name)
  ok (name, recipient)
