-- ===== src/Broker/Registry.antt =====
-- registry.go and recipient_registry.go: the static registry, the recipients that controllers
-- register, and the public snapshot that overlays one on the other.
pub mod Laws
pub mod Overlay
use gitseal.Prelude.{
  ℕ, ◌≡◌, Bool, true, false, not, ◌||◌, Option, none, some, List, [], ◌∷◌, ◌++◌, Text, ℤ, pos,
  text_eq, text_key, pair_key, eqb_ℤ, is_empty, any, if◌then◌else◌,
}
use gitseal.Prelude.Dict.{Dict, lookup, insert, keys}
use gitseal.Broker.State.{
  ProjectEnv, ProjectEntry, Registry, RecipientEntry, RecipientRegistry, Broker,
}
use gitseal.Broker.Challenge.{Answer, answer}

-- a missing key's zero value
abbrev pub text_at : Text → Dict Text Text → Text
text_at k d = elim (lookup k d) [ none ↦ [] | some v ↦ v ]

abbrev pub int_at : Text → Dict Text ℤ → ℤ
int_at k d = elim (lookup k d) [ none ↦ pos 0 | some v ↦ v ]

-- The loop of UnmarshalJSON over `env_cluster`.
unfoldable pub derive_envs :
    ProjectEntry → Dict Text Text → Dict Text ProjectEnv → Dict Text ProjectEnv
derive_envs e [] out = out
derive_envs e ((env, cluster) ∷ rest) out = derive_envs e rest (
    insert env
      (record {
        cluster = cluster;
        namespace = [];
        min_level = int_at env e.env_min_level;
        recipient = text_at cluster e.cluster_recipients;
      })
      out)

abbrev derived :
    ProjectEntry → Option (Dict Text ProjectEnv) → Dict Text Text → Option (Dict Text ProjectEnv)
derived e (some envs) legacy = some envs
derived e none [] = none
derived e none (l ∷ legacy) = some (derive_envs e (l ∷ legacy) [])

-- UnmarshalJSON, given the entry as its fields decode.
unfoldable pub unmarshal_entry : ProjectEntry → ProjectEntry
unfolding derive_envs
unmarshal_entry e = record {
  project_id = e.project_id;
  envs = derived e e.envs e.env_cluster;
  env_cluster = [];
  env_min_level = [];
  cluster_recipients = [];
}

-- Registry.Project, Registry.User and Registry.UserKey; a nil registry has nothing.
unfoldable pub project : Option Registry → Text → Option ProjectEntry
project none pubkey = none
project (some r) pubkey = lookup pubkey r.projects

unfoldable pub user : Option Registry → Text → Option ℤ
user none fingerprint = none
user (some r) fingerprint = lookup fingerprint r.users

unfoldable pub user_key : Option Registry → Text → Option Text
user_key none fingerprint = none
user_key (some r) fingerprint = lookup fingerprint r.user_keys

-- RecipientRegistry.set
unfoldable pub set_recipient : Text → Text → RecipientEntry → RecipientRegistry → RecipientRegistry
set_recipient project_key env e rr = record rr {
  recipients = insert (project_key, env) e rr.recipients;
}

-- The loop of forProject.
unfoldable pub select_project : Text → Dict (Text × Text) RecipientEntry → Dict Text RecipientEntry
select_project project_key [] = []
select_project project_key (((p, env), e) ∷ rest) =
    let out = select_project project_key rest in
    if text_eq p project_key then insert env e out else out

-- RecipientRegistry.forProject
unfoldable pub for_project : Text → RecipientRegistry → Dict Text RecipientEntry
unfolding select_project
for_project project_key rr = select_project project_key rr.recipients

pub record RegisterRequest : Type 0 where
  pub project_recipient : Text
  pub env : Text
  pub entry : RecipientEntry

abbrev or_empty : Option RecipientRegistry → RecipientRegistry
or_empty none = record { recipients = [] }
or_empty (some rr) = rr

-- The fields that a registration must have.
abbrev pub incomplete : RegisterRequest → Bool
incomplete r = is_empty r.project_recipient || is_empty r.env || is_empty r.entry.recipient

-- HandleRecipientRegister: the new state, the answer, and the registration that is fanned out to the
-- peers (an original one only).
unfoldable pub handle_recipient_register :
    Bool → Text → Bool → Option RegisterRequest → Broker → Broker × Answer × Option RegisterRequest
unfolding set_recipient
handle_recipient_register is_post token forwarded none b =
    if is_empty b.register_token
    then (b, answer 503, none)
    else if not is_post
    then (b, answer 405, none)
    else if not (text_eq token b.register_token)
    then (b, answer 401, none)
    else (b, answer 400, none)
handle_recipient_register is_post token forwarded (some r) b =
    if is_empty b.register_token
    then (b, answer 503, none)
    else if not is_post
    then (b, answer 405, none)
    else if not (text_eq token b.register_token)
    then (b, answer 401, none)
    else if incomplete r
    then (b, answer 400, none)
    else (
      record b {
        recipients = some (set_recipient r.project_recipient r.env r.entry (or_empty b.recipients));
      },
      answer 200,
      if forwarded then none else some r,
    )

abbrev pub zero_env : ProjectEnv
zero_env = record { cluster = []; namespace = []; min_level = pos 0; recipient = [] }

abbrev pub zero_entry : ProjectEntry
zero_entry = record {
  project_id = pos 0;
  envs = none;
  env_cluster = [];
  env_min_level = [];
  cluster_recipients = [];
}

abbrev pub env_or_zero : Option ProjectEnv → ProjectEnv
env_or_zero none = zero_env
env_or_zero (some cur) = cur

-- One env of the overlay: the registered recipient wins, and the other fields where they are set.
unfoldable pub overlay_env : RecipientEntry → ProjectEnv → ProjectEnv
overlay_env re cur = record {
  cluster = if is_empty re.cluster then cur.cluster else re.cluster;
  namespace = if is_empty re.namespace then cur.namespace else re.namespace;
  min_level = if eqb_ℤ re.min_level (pos 0) then cur.min_level else re.min_level;
  recipient = re.recipient;
}

unfoldable pub overlay_envs : Dict Text RecipientEntry → Dict Text ProjectEnv → Dict Text ProjectEnv
unfolding overlay_env
overlay_envs [] envs = envs
overlay_envs ((env, re) ∷ rest) envs =
    overlay_envs rest (insert env (overlay_env re (env_or_zero (lookup env envs))) envs)

abbrev pub entry_or_zero : Option ProjectEntry → ProjectEntry
entry_or_zero none = zero_entry
entry_or_zero (some e) = e

-- a nil map becomes an empty one
abbrev pub envs_of : ProjectEntry → Dict Text ProjectEnv
envs_of e = elim e.envs [ none ↦ [] | some envs ↦ envs ]

abbrev pub overlay_entry : Dict Text RecipientEntry → ProjectEntry → ProjectEntry
overlay_entry registered entry = record entry {
  envs = some (overlay_envs registered (envs_of entry));
}

unfoldable pub overlay_project :
    RecipientRegistry → Text → Dict Text ProjectEntry → Dict Text ProjectEntry
unfolding for_project
overlay_project rr project_key snap =
    insert project_key
      (overlay_entry (for_project project_key rr) (entry_or_zero (lookup project_key snap))) snap

unfoldable pub overlay_projects :
    RecipientRegistry → List Text → Dict Text ProjectEntry → Dict Text ProjectEntry
overlay_projects rr [] snap = snap
overlay_projects rr (p ∷ ps) snap = overlay_projects rr ps (overlay_project rr p snap)

-- collectProjects: the keys of the static snapshot, then the registered projects, each once.
unfoldable pub add_projects : Dict (Text × Text) RecipientEntry → List Text → List Text
add_projects [] out = out
add_projects (((p, env), e) ∷ rest) out =
    add_projects rest (if any (text_eq p) out then out else out ++ p ∷ [])

unfoldable pub collect_projects : Dict Text ProjectEntry → RecipientRegistry → List Text
unfolding add_projects
collect_projects static rr = add_projects rr.recipients (keys static)

abbrev pub static_projects : Option Registry → Dict Text ProjectEntry
static_projects none = []
static_projects (some r) = r.projects

abbrev overlaid : Option RecipientRegistry → Dict Text ProjectEntry → Dict Text ProjectEntry
overlaid none snap = snap
overlaid (some rr) snap = overlay_projects rr (collect_projects snap rr) snap

-- HandleRegistrySnapshot: the projects that it serves.
unfoldable pub handle_registry_snapshot : Broker → Dict Text ProjectEntry
unfolding overlay_projects collect_projects
handle_registry_snapshot b = overlaid b.recipients (static_projects b.registry)
