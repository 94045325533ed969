-- ===== src/Client/Snapshot/Laws.antt =====
-- registry_edit.go with snapshot.go: an env that was set is the env that a repository resolves.
use mathlib.Core.Path.{subst}
use gitseal.Prelude.{
  ◌≡◌, refl, Bool, true, false, not, ◌&&◌, Option, none, some, [], ◌∷◌, Text, text_key, text_eq, ℤ,
  pos, eqb_ℤ, leb_ℤ, ltb_ℤ, is_empty, if◌then◌else◌, ok, ap, sym, ◌∙◌, >>=-eq-ok, refuse_if-eq-ok,
  ok-inj,
}
use gitseal.Prelude.Dict.{Dict, lookup, insert, lookup-insert, lookup-insert_self}
use gitseal.Client.Config.{RepoConfig}
use gitseal.Client.Rotate.Laws.{map_option}
use gitseal.Client.Snapshot.{
  RegistryEnv, RegistryProjectEntry, ProjectRegistry, no_recipient, no_namespace, no_cluster,
  no_min_level, other_identity, envs_of, entry_or_new, entry, set_env_v2, fill_envs, bare_config,
  project_config, Response, load_snapshot, fetch_project_config, resolve_repo_config,
}

-- The four maps of a configuration read one env as `o` says.
abbrev pub ReadsEnv : RepoConfig → Text → Option RegistryEnv → Type 0
ReadsEnv rc env o =
    (lookup env rc.env_recipient ≡ map_option (λ (e : RegistryEnv). e.recipient) o)
    × (lookup env rc.env_namespace ≡ map_option (λ (e : RegistryEnv). e.namespace) o)
    × (lookup env rc.env_cluster ≡ map_option (λ (e : RegistryEnv). e.cluster) o)
    × (lookup env rc.env_min_level ≡ map_option (λ (e : RegistryEnv). e.min_level) o)

module _ {V : Type 0} (field : RegistryEnv → V) where
  -- One of the maps, after an env was written.
  field_step :
      (env k : Text) (cfg : RegistryEnv) (d : Dict Text V) (o : Option RegistryEnv)
      → lookup env d ≡ map_option field o
      → lookup env (insert k (field cfg) d)
        ≡ map_option field (if text_eq k env then some cfg else o)
  field_step env k cfg d o h = lookup-insert env k (field cfg) d ∙ by_key (text_eq k env)
    where
      by_key :
          (b : Bool)
          → (if b then some (field cfg) else lookup env d)
            ≡ map_option field (if b then some cfg else o)
      by_key true = refl
      by_key false = h

fill_envs-ReadsEnv :
    (envs : Dict Text RegistryEnv) (project_id : ℤ) (recipient env : Text)
    → ReadsEnv (fill_envs envs (bare_config project_id recipient)) env (lookup env envs)
unfolding fill_envs lookup
fill_envs-ReadsEnv [] project_id recipient env = (refl, refl, refl, refl)
fill_envs-ReadsEnv ((k, cfg) ∷ envs) project_id recipient env =
    let (r, n, c, l) = fill_envs-ReadsEnv envs project_id recipient env in
    (
      field_step (λ (e : RegistryEnv). e.recipient) env k cfg _ (lookup env envs) r,
      field_step (λ (e : RegistryEnv). e.namespace) env k cfg _ (lookup env envs) n,
      field_step (λ (e : RegistryEnv). e.cluster) env k cfg _ (lookup env envs) c,
      field_step (λ (e : RegistryEnv). e.min_level) env k cfg _ (lookup env envs) l,
    )

fill_envs-recipient :
    (envs : Dict Text RegistryEnv) (rc : RepoConfig)
    → ((fill_envs envs rc).recipient ≡ rc.recipient)
      × ((fill_envs envs rc).project_id ≡ rc.project_id)
unfolding fill_envs
fill_envs-recipient [] rc = (refl, refl)
fill_envs-recipient ((k, cfg) ∷ envs) rc = fill_envs-recipient envs rc

-- the envs of a project that may be absent
abbrev pub project_envs : Option RegistryProjectEntry → Dict Text RegistryEnv
project_envs none = []
project_envs (some e) = envs_of e.envs

entry_or_new-envs :
    (project_id : ℤ) (o : Option RegistryProjectEntry) (e : RegistryProjectEntry)
    → entry_or_new project_id o ≡ ok e
    → envs_of e.envs ≡ project_envs o
entry_or_new-envs project_id none e h =
    ap (λ (x : RegistryProjectEntry). envs_of x.envs) (sym (ok-inj h))
entry_or_new-envs project_id (some p) e h =
    let (_, h₁) =
      refuse_if-eq-ok
        (not (eqb_ℤ project_id (pos 0))
          && (not (eqb_ℤ p.project_id (pos 0)) && not (eqb_ℤ p.project_id project_id)))
        (other_identity p.project_id project_id)
        (λ _. ok (record p { envs = some (envs_of p.envs) })) e h in
    ap (λ (x : RegistryProjectEntry). envs_of x.envs) (sym (ok-inj h₁))

-- What setting an env makes of the registry.
set_env_v2-eq-ok :
    (r out : ProjectRegistry) (pub_key : Text) (project_id : ℤ) (env : Text) (cfg : RegistryEnv)
    → set_env_v2 r pub_key project_id env cfg ≡ ok out
    → (e : RegistryProjectEntry) × (out ≡ insert pub_key e r)
      × (envs_of e.envs ≡ insert env cfg (project_envs (lookup pub_key r)))
      × (is_empty cfg.recipient ≡ false)
      × (leb_ℤ cfg.min_level (pos 0) ≡ false)
unfolding set_env_v2 entry
set_env_v2-eq-ok r out pub_key project_id env cfg h =
    let (e, at, h₁) = >>=-eq-ok (entry_or_new project_id (lookup pub_key r)) _ h in
    let (filled, h₂) = refuse_if-eq-ok (is_empty cfg.recipient) (no_recipient env) _ _ h₁ in
    let (_, h₃) = refuse_if-eq-ok (is_empty cfg.namespace) (no_namespace env) _ _ h₂ in
    let (_, h₄) = refuse_if-eq-ok (is_empty cfg.cluster) (no_cluster env) _ _ h₃ in
    let (level, h₅) = refuse_if-eq-ok (leb_ℤ cfg.min_level (pos 0)) (no_min_level env) _ _ h₄ in
    (
      record e { envs = some (insert env cfg (envs_of e.envs)) },
      sym (ok-inj h₅),
      ap (insert env cfg) (entry_or_new-envs project_id (lookup pub_key r) e at),
      filled,
      level,
    )

project_config-found :
    (snap : ProjectRegistry) (pub_key env : Text) (e : RegistryProjectEntry)
    → lookup pub_key snap ≡ some e
    → (rc : RepoConfig) × (project_config snap pub_key ≡ ok rc)
      × (rc.recipient ≡ pub_key)
      × ReadsEnv rc env (lookup env (envs_of e.envs))
unfolding project_config
project_config-found snap pub_key env e found = (
  fill_envs (envs_of e.envs) (bare_config e.project_id pub_key),
  rw found refl,
  (fill_envs-recipient (envs_of e.envs) (bare_config e.project_id pub_key)).0,
  fill_envs-ReadsEnv (envs_of e.envs) e.project_id pub_key env,
)

-- An env of a project is set in the registry, the broker serves that registry (or the cache holds it
-- while the broker cannot be reached), and a repository whose repo.yaml has only the project's key and a
-- scalar level resolves its configuration. Then the resolution succeeds, keeps the key and the
-- scalar level, and reads for the env that was set exactly its recipient, namespace, cluster and
-- level, and for every other env of the project what the registry held before.
pub resolve_repo_config-set_env_v2 :
    (unmarshal : Text → Option ProjectRegistry) (response : Response) (has_path : Bool)
    (cache : Option Text) (r out : ProjectRegistry) (project_id : ℤ) (env other : Text)
    (cfg : RegistryEnv) (rc : RepoConfig)
    → set_env_v2 r rc.recipient project_id env cfg ≡ ok out
    → (load_snapshot unmarshal response has_path cache).0 ≡ ok out
    → is_empty rc.recipient ≡ false
    → ltb_ℤ (pos 0) rc.project_id ≡ false
    → (resolved : RepoConfig) × (resolve_repo_config unmarshal response has_path cache rc
        ≡ ok resolved)
      × (resolved.recipient ≡ rc.recipient)
      × (resolved.min_access_level ≡ rc.min_access_level)
      × ReadsEnv resolved other (
          if text_eq env other
          then some cfg
          else lookup other (project_envs (lookup rc.recipient r)))
unfolding resolve_repo_config fetch_project_config
resolve_repo_config-set_env_v2 unmarshal response has_path cache r out project_id env other cfg rc
      set loaded filled unnumbered =
    let (e, inserted, envs, _, _) = set_env_v2-eq-ok r out rc.recipient project_id env cfg set in
    let found : lookup rc.recipient out ≡ some e =
      ap (lookup rc.recipient) inserted ∙ lookup-insert_self rc.recipient e r in
    let (base, made, key, reads) = project_config-found out rc.recipient other e found in
    (
      record base { min_access_level = rc.min_access_level },
      rw (filled, unnumbered, loaded, made) refl,
      key,
      refl,
      subst (λ o. ReadsEnv base other o)
          (ap (lookup other) envs
            ∙ lookup-insert other env cfg (project_envs (lookup rc.recipient r)))
          reads,
    )
