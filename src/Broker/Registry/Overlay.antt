-- ===== src/Broker/Registry/Overlay.antt =====
-- registry.go and recipient_registry.go: the overlay's loops, env by env.
use gitseal.Prelude.{
  ◌≡◌, refl, sym, ap, Bool, true, false, ◌||◌, ◌&&◌, Option, none, some, List, [], ◌∷◌, ◌++◌, Text,
  text_eq, text_key, text_eq_iff, pair_key, any, if◌then◌else◌, arith, ◌⊎◌, inl, inr,
}
use gitseal.Prelude.Dict.{
  Dict, NodupKeys, lookup, insert, keys, lookup-nil, lookup-cons, lookup-insert, insert-NodupKeys,
}
use gitseal.Broker.State.{ProjectEnv, ProjectEntry, RecipientEntry, RecipientRegistry}
use gitseal.Broker.Registry.{
  select_project, for_project, env_or_zero, entry_or_zero, envs_of, overlay_env, overlay_envs,
  overlay_project, overlay_entry, overlay_projects, add_projects, collect_projects, overlaid,
}

select_project-lookup :
    (p env : Text) (d : Dict (Text × Text) RecipientEntry)
    → lookup env (select_project p d) ≡ lookup (p, env) d
unfolding select_project lookup
select_project-lookup p env [] = refl
select_project-lookup p env (((q, env'), e) ∷ d) = ground (
  arith,
  select_project-lookup p env d,
  text_eq_iff q p,
  text_eq_iff env' env,
  lookup-insert env env' e (select_project p d),
)

-- The registration on top of what the static registry has.
abbrev pub overlaid_env : Option RecipientEntry → Option ProjectEnv → Option ProjectEnv
overlaid_env none o = o
overlaid_env (some re) o = some (overlay_env re (env_or_zero o))

overlay_env-twice :
    (re : RecipientEntry) (cur : ProjectEnv)
    → overlay_env re (overlay_env re cur) ≡ overlay_env re cur
unfolding overlay_env
overlay_env-twice re cur = ground arith

overlaid_env-twice :
    (r : Option RecipientEntry) (o : Option ProjectEnv)
    → overlaid_env r (overlaid_env r o) ≡ overlaid_env r o
overlaid_env-twice none o = refl
overlaid_env-twice (some re) o = ap some (overlay_env-twice re (env_or_zero o))

overlaid_step :
    (env env' : Text) (re : RecipientEntry) (d : Dict Text RecipientEntry)
    (envs : Dict Text ProjectEnv) (b : Bool)
    → text_eq env' env ≡ b
    → lookup env' d ≡ none
    → overlaid_env
        (lookup env d)
        (if b then some (overlay_env re (env_or_zero (lookup env' envs))) else lookup env envs)
      ≡ overlaid_env (if b then some re else lookup env d) (lookup env envs)
overlaid_step env env' re d envs true same fresh =
    let e : env' ≡ env = (text_eq_iff env' env).0 same in rw (sym e, fresh) refl
overlaid_step env env' re d envs false same fresh = refl

overlay_envs-lookup :
    (env : Text) (d : Dict Text RecipientEntry) (envs : Dict Text ProjectEnv)
    → NodupKeys d
    → lookup env (overlay_envs d envs) ≡ overlaid_env (lookup env d) (lookup env envs)
unfolding overlay_envs
overlay_envs-lookup env [] envs u = rw (lookup-nil {V = RecipientEntry} env) refl
overlay_envs-lookup env ((env', re) ∷ d) envs (fresh, u) =
    rw
      (
        overlay_envs-lookup env d
            (insert env' (overlay_env re (env_or_zero (lookup env' envs))) envs) u,
        lookup-insert env env' (overlay_env re (env_or_zero (lookup env' envs))) envs,
        lookup-cons env env' re d,
      )
      (overlaid_step env env' re d envs (text_eq env' env) refl fresh)

select_project-NodupKeys :
    (p : Text) (d : Dict (Text × Text) RecipientEntry) → NodupKeys (select_project p d)
unfolding select_project
select_project-NodupKeys p [] = tt
select_project-NodupKeys p (((q, env'), e) ∷ d) =
    ground (arith, select_project-NodupKeys p d, insert-NodupKeys env' e (select_project p d))

-- What a snapshot has for an env of a project.
unfoldable pub served : Dict Text ProjectEntry → Text → Text → Option ProjectEnv
served snap p env = lookup env (envs_of (entry_or_zero (lookup p snap)))

overlaid_case :
    (rr : RecipientRegistry) (q p env : Text) (snap : Dict Text ProjectEntry) (b : Bool)
    → text_eq q p ≡ b
    → lookup env (
        envs_of (
          entry_or_zero (
            if b
            then some (overlay_entry (for_project q rr) (entry_or_zero (lookup q snap)))
            else lookup p snap)))
      ≡ (if b
          then overlaid_env
              (lookup (p, env) rr.recipients)
              (lookup env (envs_of (entry_or_zero (lookup p snap))))
          else lookup env (envs_of (entry_or_zero (lookup p snap))))
unfolding for_project
overlaid_case rr q p env snap true same =
    let e : p ≡ q = sym ((text_eq_iff q p).0 same) in
    rw
      (
        e,
        overlay_envs-lookup env (select_project q rr.recipients)
            (envs_of (entry_or_zero (lookup q snap))) (select_project-NodupKeys q rr.recipients),
        select_project-lookup q env rr.recipients,
      )
      refl
overlaid_case rr q p env snap false same = refl

overlay_project-served :
    (rr : RecipientRegistry) (q p env : Text) (snap : Dict Text ProjectEntry)
    → served (overlay_project rr q snap) p env ≡ (
        if text_eq q p
        then overlaid_env (lookup (p, env) rr.recipients) (served snap p env)
        else served snap p env)
unfolding served overlay_project
overlay_project-served rr q p env snap =
    rw (lookup-insert p q (overlay_entry (for_project q rr) (entry_or_zero (lookup q snap))) snap)
      (overlaid_case rr q p env snap (text_eq q p) refl)

-- one project on top of what the rest of the list gives
overlaid_again :
    (r : Option RecipientEntry) (o : Option ProjectEnv) (b rest : Bool)
    → (if rest
        then overlaid_env r (if b then overlaid_env r o else o)
        else (if b then overlaid_env r o else o))
      ≡ (if b || rest then overlaid_env r o else o)
overlaid_again r o true true = overlaid_env-twice r o
overlaid_again r o true false = refl
overlaid_again r o false true = refl
overlaid_again r o false false = refl

overlay_projects-served :
    (rr : RecipientRegistry) (ps : List Text) (p env : Text) (snap : Dict Text ProjectEntry)
    → served (overlay_projects rr ps snap) p env ≡ (
        if any (λ q. text_eq q p) ps
        then overlaid_env (lookup (p, env) rr.recipients) (served snap p env)
        else served snap p env)
unfolding overlay_projects
overlay_projects-served rr [] p env snap = refl
overlay_projects-served rr (q ∷ ps) p env snap =
    rw
      (
        overlay_projects-served rr ps p env (overlay_project rr q snap),
        overlay_project-served rr q p env snap,
      )
      (overlaid_again (lookup (p, env) rr.recipients) (served snap p env) (text_eq q p)
        (any (λ q'. text_eq q' p) ps))

any_flip : (p : Text) (out : List Text) → any (λ r. text_eq r p) out ≡ any (text_eq p) out
any_flip p [] = refl
any_flip p (r ∷ out) = ground (arith, any_flip p out, text_eq_iff r p, text_eq_iff p r)

any_grows :
    (p q : Text) (out : List Text)
    → any (text_eq p) (out ++ q ∷ []) ≡ (any (text_eq p) out || text_eq p q)
any_grows p q [] = ground arith
any_grows p q (r ∷ out) = ground (arith, any_grows p q out)

collected_once :
    (p q : Text) (out : List Text)
    → any (text_eq p) (if any (text_eq q) out then out else out ++ q ∷ [])
      ≡ (any (text_eq p) out || text_eq p q)
collected_once p q out = ground (arith, any_grows p q out, text_eq_iff p q)

add_projects-keeps :
    (p : Text) (d : Dict (Text × Text) RecipientEntry) (out : List Text)
    → any (text_eq p) out ≡ true
    → any (text_eq p) (add_projects d out) ≡ true
unfolding add_projects
add_projects-keeps p [] out h = h
add_projects-keeps p (((q, env), e) ∷ d) out h =
    add_projects-keeps p d _ (rw (collected_once p q out, h) refl)

covered_here :
    (p env q env' : Text) (re e : RecipientEntry) (d : Dict (Text × Text) RecipientEntry) (b : Bool)
    → (text_eq q p && text_eq env' env) ≡ b
    → (if b then some e else lookup (p, env) d) ≡ some re
    → (text_eq p q ≡ true) ⊎ (lookup (p, env) d ≡ some re)
covered_here p env q env' re e d true same h =
    inl (ground (arith, text_eq_iff p q, text_eq_iff q p))
covered_here p env q env' re e d false same h = inr h

add_projects-covers :
    (p env : Text) (re : RecipientEntry) (d : Dict (Text × Text) RecipientEntry) (out : List Text)
    → lookup (p, env) d ≡ some re
    → any (text_eq p) (add_projects d out) ≡ true
unfolding add_projects lookup
add_projects-covers p env re [] out h = cc
add_projects-covers p env re (((q, env'), e) ∷ d) out h =
    elim (covered_here p env q env' re e d (text_eq q p && text_eq env' env) refl h) [
      | inl here ↦ add_projects-keeps p d _ (rw (collected_once p q out, here) (ground arith))
      | inr later ↦ add_projects-covers p env re d _ later
    ]

overlaid_all :
    (r : Option RecipientEntry) (o : Option ProjectEnv) (covers : Bool)
    → ((re : RecipientEntry) → r ≡ some re → covers ≡ true)
    → (if covers then overlaid_env r o else o) ≡ overlaid_env r o
overlaid_all none o true h = refl
overlaid_all none o false h = refl
overlaid_all (some re) o covers h = rw (h re refl) refl

-- the registration of an env, if a controller made one
abbrev pub registered : Option RecipientRegistry → Text → Text → Option RecipientEntry
registered none p env = none
registered (some rr) p env = lookup (p, env) rr.recipients

pub overlaid-served :
    (o : Option RecipientRegistry) (snap : Dict Text ProjectEntry) (p env : Text)
    → served (overlaid o snap) p env ≡ overlaid_env (registered o p env) (served snap p env)
unfolding collect_projects
overlaid-served none snap p env = refl
overlaid-served (some rr) snap p env =
    rw
      (
        overlay_projects-served rr (collect_projects snap rr) p env snap,
        any_flip p (collect_projects snap rr),
      )
      (overlaid_all (lookup (p, env) rr.recipients) (served snap p env)
        (any (text_eq p) (collect_projects snap rr)) (λ re h. covers re h))
  where
    covers :
        (re : RecipientEntry)
        → lookup (p, env) rr.recipients ≡ some re
        → any (text_eq p) (collect_projects snap rr) ≡ true
    covers re h = add_projects-covers p env re rr.recipients (keys snap) h
