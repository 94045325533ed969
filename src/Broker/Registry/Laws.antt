-- ===== src/Broker/Registry/Laws.antt =====
-- registry.go and recipient_registry.go: what the snapshot serves, and what a registration does.
use gitseal.Prelude.{
  ◌≡◌, refl, sym, Bool, false, ◌&&◌, Option, none, some, [], Text, text_eq, text_key, text_eq_iff,
  pair_key, eqb_ℤ, pos, is_empty, if◌then◌else◌, arith,
}
use gitseal.Prelude.Dict.{Dict, lookup, lookup-nil, lookup-insert}
use gitseal.Broker.State.{ProjectEnv, ProjectEntry, RecipientEntry, RecipientRegistry, Broker}
use gitseal.Broker.Registry.{
  set_recipient, RegisterRequest, or_empty, incomplete, handle_recipient_register, entry_or_zero,
  envs_of, overlay_env, static_projects, overlaid, handle_registry_snapshot,
}
use gitseal.Broker.Registry.Overlay.{served, overlaid_env, registered, overlaid-served}

-- The static registry's env: the project's entry, and in it the env.
abbrev env_in : Text → Option ProjectEntry → Option ProjectEnv
env_in env none = none
env_in env (some e) = elim e.envs [ none ↦ none | some envs ↦ lookup env envs ]

abbrev pub env_at : Dict Text ProjectEntry → Text → Text → Option ProjectEnv
env_at snap p env = env_in env (lookup p snap)

served-env_at :
    (snap : Dict Text ProjectEntry) (p env : Text) → served snap p env ≡ env_at snap p env
unfolding served
served-env_at snap p env = by_entry (lookup p snap)
  where
    by_entry : (o : Option ProjectEntry) → lookup env (envs_of (entry_or_zero o)) ≡ env_in env o
    by_entry none = lookup-nil {K = Text} {V = ProjectEnv} env
    by_entry (some e) = by_envs e.envs
      where
        by_envs :
            (o : Option (Dict Text ProjectEnv))
            → lookup env (elim o [ none ↦ [] | some envs ↦ envs ])
              ≡ (elim o [ none ↦ none | some envs ↦ lookup env envs ])
        by_envs none = lookup-nil {K = Text} {V = ProjectEnv} env
        by_envs (some envs) = refl

-- a field of the static env, or the default where there is none
abbrev field_of {ℓ} : {A : Type ℓ} → (ProjectEnv → A) → A → Option ProjectEnv → A
field_of f d none = d
field_of f d (some e) = f e

-- The env that is served, given the registration and the static env, field by field: the recipient is
-- the registered one; another field is the registered one where that is set, and the static one if not.
pub data IsServed (static : Option ProjectEnv)
    : Option RecipientEntry → Option ProjectEnv → Type 0 where
  as_static : IsServed static none static
  overlaid_on :
      (re : RecipientEntry) (env : ProjectEnv)
      → env.recipient ≡ re.recipient
      → env.cluster
        ≡ (if is_empty re.cluster then field_of (λ e. e.cluster) [] static else re.cluster)
      → env.namespace
        ≡ (if is_empty re.namespace then field_of (λ e. e.namespace) [] static else re.namespace)
      → env.min_level ≡ (
          if eqb_ℤ re.min_level (pos 0)
          then field_of (λ e. e.min_level) (pos 0) static
          else re.min_level)
      → IsServed static (some re) (some env)

overlaid_env-IsServed :
    (r : Option RecipientEntry) (o : Option ProjectEnv) → IsServed o r (overlaid_env r o)
unfolding overlay_env
overlaid_env-IsServed none o = as_static
overlaid_env-IsServed (some re) none = overlaid_on re _ refl refl refl refl
overlaid_env-IsServed (some re) (some e) = overlaid_on re _ refl refl refl refl

-- The snapshot serves, for each env of each project, what is registered for exactly that project and env
-- on top of what the static registry has: the registered recipient, and the registered cluster,
-- namespace and level where they are set, else the static ones, or empty ones and level 0 without a
-- static env. Where nothing is registered, the static env is served unchanged, or none where there is
-- none.
pub handle_registry_snapshot-IsServed :
    (b : Broker) (p env : Text)
    → IsServed
        (env_at (static_projects b.registry) p env)
        (registered b.recipients p env)
        (env_at (handle_registry_snapshot b) p env)
unfolding handle_registry_snapshot
handle_registry_snapshot-IsServed b p env =
    let static = static_projects b.registry in
    let snap = overlaid b.recipients static in
    rw
      (
        sym (served-env_at snap p env),
        sym (served-env_at static p env),
        overlaid-served b.recipients static p env,
      )
      (overlaid_env-IsServed (registered b.recipients p env) (served static p env))

or_empty-lookup :
    (o : Option RecipientRegistry) (p env q env' : Text) (e : RecipientEntry)
    → lookup (p, env) (set_recipient q env' e (or_empty o)).recipients
      ≡ (if text_eq q p && text_eq env' env then some e else registered o p env)
unfolding set_recipient
or_empty-lookup none p env q env' e =
    rw (lookup-insert {K = Text × Text} {V = RecipientEntry} (p, env) (q, env') e [])
      (rw (lookup-nil {K = Text × Text} {V = RecipientEntry} (p, env)) refl)
or_empty-lookup (some rr) p env q env' e = lookup-insert (p, env) (q, env') e rr.recipients

-- A registration that is answered by 200 had the broker's token, which is not empty, and all its fields;
-- afterwards exactly the registration of that env of that project is the one asked for.
pub handle_recipient_register-ok :
    (is_post : Bool) (token p env : Text) (forwarded : Bool) (r : RegisterRequest) (b : Broker)
    → (handle_recipient_register is_post token forwarded (some r) b).1.status ≡ 200
    → (token ≡ b.register_token)
      × (is_empty token ≡ false)
      × (incomplete r ≡ false)
      × (registered
            (handle_recipient_register is_post token forwarded (some r) b).0.recipients
            p
            env
          ≡ (if text_eq r.project_recipient p && text_eq r.env env
              then some r.entry
              else registered b.recipients p env))
unfolding handle_recipient_register
handle_recipient_register-ok is_post token p env forwarded r b done =
    let token_is = text_eq_iff token b.register_token in
    (
      ground arith,
      ground arith,
      ground arith,
      ground (arith, or_empty-lookup b.recipients p env r.project_recipient r.env r.entry),
    )
