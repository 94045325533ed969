-- ===== src/Broker/State.antt =====
-- The broker's state (the `Broker` struct and the stores it points to; a mutex serialises the
-- operations on each store, so an operation is one step). Times are in nanoseconds.
use gitseal.Prelude.{ℕ, Bool, Option, Text, ℤ, List}
use gitseal.Prelude.Dict.{Dict}

-- ChallengeStore: nonce → expiry
pub record ChallengeStore : Type 0 where
  pub ttl : ℕ
  pub expiries : Dict Text ℕ

-- KeyStore: project id → identity
pub record KeyStore : Type 0 where
  pub identities : Dict ℤ Text

pub record IndexEntry : Type 0 where
  pub user_id : ℤ
  pub pub_key : Text

-- IdentityIndex: fingerprint → entry
pub record IdentityIndex : Type 0 where
  pub entries : Dict Text IndexEntry

pub record ProjectEnv : Type 0 where
  pub cluster : Text
  pub namespace : Text
  pub min_level : ℤ
  pub recipient : Text

-- ProjectEntry, with its legacy maps; `none` is a nil map.
pub record ProjectEntry : Type 0 where
  pub project_id : ℤ
  pub envs : Option (Dict Text ProjectEnv)
  pub env_cluster : Dict Text Text
  pub env_min_level : Dict Text ℤ
  pub cluster_recipients : Dict Text Text

pub record Registry : Type 0 where
  pub projects : Dict Text ProjectEntry
  pub users : Dict Text ℤ
  pub user_keys : Dict Text Text

pub record RecipientEntry : Type 0 where
  pub recipient : Text
  pub cluster : Text
  pub namespace : Text
  pub min_level : ℤ

-- RecipientRegistry: (project, env) → entry
pub record RecipientRegistry : Type 0 where
  pub recipients : Dict (Text × Text) RecipientEntry

-- A nil pointer is `none`; the zero `time.Time` of `lastMiss` is `none`.
pub record Broker : Type 0 where
  pub keys : Option KeyStore
  pub skipped : List Text
  pub require_cf_access : Bool
  pub registry : Option Registry
  pub challenges : Option ChallengeStore
  pub service_token : Text
  pub identity : Option IdentityIndex
  pub system_hook_token : Text
  pub recipients : Option RecipientRegistry
  pub register_token : Text
  pub draining : Bool
  pub last_miss : Option ℕ
