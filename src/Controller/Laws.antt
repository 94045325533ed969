-- ===== src/Controller/Laws.antt =====
-- cmd/gitseal-controller/main.go: when a key that is there stays.
use gitseal.Prelude.{
  ◌≡◌, refl, Bool, true, false, ◌||◌, Option, none, some, List, [], ◌∷◌, Text, text, text_key,
  text_eq, text_eq_iff, is_empty, All, if◌then◌else◌, arith, ap, ◌∙◌,
}
use gitseal.Prelude.Dict.{lookup, insert, lookup-insert, lookup-insert_self}
use gitseal.Strconv.{trim_space}
use gitseal.Base64
use gitseal.Age.{Age}
use gitseal.Controller.{
  ManagedEnv, ReconcileAction, reconcile_error, reconcile_generate, reconcile_adopt,
  plan_env_reconcile, Cluster, KeyPair, Tick, get_materializer_identity, unreadable_or,
  ReconcileError, missing_spec, existing_recipient, register_and_patch, seed_and_register, run_plan,
  reconcile_one, patch_status, follow_plan, Item, after_one, reconcile_item, reconcile_all,
  run_ticks,
}

-- The Secret holds a key: its field is not blank.
abbrev pub HoldsKey : Text → Text → Cluster → Type 0
HoldsKey secret b64 c = (lookup secret c.secrets ≡ some b64) × (is_empty (trim_space b64) ≡ false)

register_and_patch-secrets :
    (w : Tick) (name recipient : Text) (me : ManagedEnv) (c : Cluster)
    → (register_and_patch w name me recipient c).0.secrets ≡ c.secrets
unfolding register_and_patch
register_and_patch-secrets w name recipient me c = ground arith

after_one-secrets :
    (name : Text) (r : Cluster × Option ReconcileError) → (after_one name r).secrets ≡ r.0.secrets
after_one-secrets name (c, none) = refl
after_one-secrets name (c, some e) = refl

exists_or : (o : Option Text) → (unreadable_or o).0 ≡ true
exists_or none = refl
exists_or (some raw) = refl

-- A key that is there is seen, when the read does not fail.
seen :
    (w : Tick) (c : Cluster) (secret b64 : Text)
    → HoldsKey secret b64 c
    → w.read_fails secret ≡ false
    → (get_materializer_identity w c secret).0 ≡ true
unfolding get_materializer_identity
seen w c secret b64 (there, filled) reads =
    rw (reads, there, filled) (exists_or (Base64.decode (trim_space b64)))

-- Another env's plan leaves the Secret, whatever it is.
other_plan :
    (w : Tick) (name recipient secret : Text) (me : ManagedEnv) (a : ReconcileAction) (c : Cluster)
    → text_eq me.secret_name secret ≡ false
    → lookup secret (run_plan w name me a recipient c).0.secrets ≡ lookup secret c.secrets
other_plan w name recipient secret me reconcile_error c ne = refl
other_plan w name recipient secret me reconcile_adopt c ne =
    ap (lookup secret) (register_and_patch-secrets w name recipient me c)
other_plan w name recipient secret me reconcile_generate c ne =
    seeded (w.generate me.secret_name) (w.apply_fails me.secret_name) refl
  where
    seeded :
        (o : Option KeyPair) (b : Bool)
        → w.apply_fails me.secret_name ≡ b
        → lookup secret (seed_and_register w name me o c).0.secrets ≡ lookup secret c.secrets
    seeded none b e = refl
    seeded (some kp) true e = rw e refl
    seeded (some kp) false e = rw e (
        ap (lookup secret) (
          register_and_patch-secrets w name kp.recipient me
            (record c { secrets = insert me.secret_name (Base64.encode kp.identity) c.secrets }))
        ∙ rw (lookup-insert secret me.secret_name (Base64.encode kp.identity) c.secrets, ne) refl)

-- The plan for a Secret that is there changes no Secret.
existing_plan :
    (w : Tick) (name existing : Text) (me : ManagedEnv) (c : Cluster)
    → (follow_plan w name me c (plan_env_reconcile me true existing)).0.secrets ≡ c.secrets
unfolding plan_env_reconcile
existing_plan w name existing me c = by_blank (is_empty existing)
  where
    by_blank :
        (b : Bool)
        → (follow_plan w name me c (
            if b
            then record { action = reconcile_error; register = false; recipient = [] }
            else record {
              action = reconcile_adopt;
              register = true;
              recipient = existing;
            })).0.secrets
          ≡ c.secrets
    by_blank true = refl
    by_blank false = register_and_patch-secrets w name existing me c

plan_if_exists :
    (w : Tick) (name existing : Text) (me : ManagedEnv) (c : Cluster) (exists : Bool)
    → exists ≡ true
    → (follow_plan w name me c (plan_env_reconcile me exists existing)).0.secrets ≡ c.secrets
plan_if_exists w name existing me c true _ = existing_plan w name existing me c
plan_if_exists w name existing me c false e = cc

-- The Secret's field when a key is minted over an old one.
abbrev pub minted_or : Text → Bool → Option KeyPair → Text
minted_or old apply_fails none = old
minted_or old true (some kp) = old
minted_or old false (some kp) = Base64.encode kp.identity

seeded_secret :
    (w : Tick) (name b64 : Text) (me : ManagedEnv) (c : Cluster) (o : Option KeyPair) (b : Bool)
    → lookup me.secret_name c.secrets ≡ some b64
    → w.apply_fails me.secret_name ≡ b
    → lookup me.secret_name (seed_and_register w name me o c).0.secrets ≡ some (minted_or b64 b o)
seeded_secret w name b64 me c none b there e = there
seeded_secret w name b64 me c (some kp) true there e = rw e there
seeded_secret w name b64 me c (some kp) false there e = rw e (
    ap (lookup me.secret_name) (
      register_and_patch-secrets w name kp.recipient me
        (record c { secrets = insert me.secret_name (Base64.encode kp.identity) c.secrets }))
    ∙ lookup-insert_self me.secret_name (Base64.encode kp.identity) c.secrets)

module _ (age : Age) where
  reconcile_one-secrets :
      (w : Tick) (name secret b64 : Text) (me : ManagedEnv) (c : Cluster)
      → HoldsKey secret b64 c
      → w.read_fails secret ≡ false
      → lookup secret (reconcile_one age w name me c).0.secrets ≡ lookup secret c.secrets
  unfolding reconcile_one
  reconcile_one-secrets w name secret b64 me c h reads =
      by_spec (is_empty me.project_recipient || is_empty me.env) (text_eq me.secret_name secret)
        refl
    where
      by_spec :
          (bad same : Bool)
          → text_eq me.secret_name secret ≡ same
          → lookup secret
              (if bad
                then (c, some missing_spec)
                else follow_plan w name me c (
                    plan_env_reconcile me (get_materializer_identity w c me.secret_name).0 (
                      existing_recipient age
                        (get_materializer_identity w c me.secret_name)))).0.secrets
            ≡ lookup secret c.secrets
      by_spec true same e = refl
      by_spec false true e =
          let here : me.secret_name ≡ secret = (text_eq_iff me.secret_name secret).0 e in
          let there : (get_materializer_identity w c me.secret_name).0 ≡ true =
            ap (λ s. (get_materializer_identity w c s).0) here ∙ seen w c secret b64 h reads in
          ap (lookup secret) (
            plan_if_exists w name
              (existing_recipient age (get_materializer_identity w c me.secret_name)) me c
              (get_materializer_identity w c me.secret_name).0 there)
      by_spec false false e =
          let read = get_materializer_identity w c me.secret_name in
          let plan = plan_env_reconcile me read.0 (existing_recipient age read) in
          other_plan w name plan.recipient secret me plan.action c e

  reconcile_item-secrets :
      (w : Tick) (item : Item) (secret b64 : Text) (c : Cluster)
      → HoldsKey secret b64 c
      → w.read_fails secret ≡ false
      → lookup secret (reconcile_item age w item c).secrets ≡ lookup secret c.secrets
  reconcile_item-secrets w (name, project, me) secret b64 c h reads = by_project (is_empty project)
    where
      by_project :
          (b : Bool)
          → lookup secret
              (if b
                then patch_status name [] (text "Error") c
                else after_one name (reconcile_one age w name me c)).secrets
            ≡ lookup secret c.secrets
      by_project true = refl
      by_project false =
          ap (lookup secret) (after_one-secrets name (reconcile_one age w name me c))
          ∙ reconcile_one-secrets w name secret b64 me c h reads

  reconcile_all-HoldsKey :
      (w : Tick) (items : List Item) (secret b64 : Text) (c : Cluster)
      → HoldsKey secret b64 c
      → w.read_fails secret ≡ false
      → HoldsKey secret b64 (reconcile_all age w items c)
  unfolding reconcile_all
  reconcile_all-HoldsKey w [] secret b64 c h reads = h
  reconcile_all-HoldsKey w (item ∷ items) secret b64 c (there, filled) reads =
      reconcile_all-HoldsKey w items secret b64 (reconcile_item age w item c)
        (reconcile_item-secrets w item secret b64 c (there, filled) reads ∙ there, filled) reads

  -- A Secret that holds a key holds the same key after any number of ticks over any lists of
  -- managed environments, provided that no read of this Secret fails.
  pub run_ticks-HoldsKey :
      (ticks : List (Tick × List Item)) (secret b64 : Text) (c : Cluster)
      → HoldsKey secret b64 c
      → All (λ t. t.0.read_fails secret ≡ false) ticks
      → HoldsKey secret b64 (run_ticks age ticks c)
  unfolding run_ticks
  run_ticks-HoldsKey [] secret b64 c h _ = h
  run_ticks-HoldsKey ((w, items) ∷ ticks) secret b64 c h (reads, rest) =
      run_ticks-HoldsKey ticks secret b64 (reconcile_all age w items c)
        (reconcile_all-HoldsKey w items secret b64 c h reads) rest

  -- A failed read is taken for an absent Secret.
  overwritten :
      (w : Tick) (name b64 : Text) (me : ManagedEnv) (c : Cluster)
      → lookup me.secret_name c.secrets ≡ some b64
      → w.read_fails me.secret_name ≡ true
      → (is_empty me.project_recipient || is_empty me.env) ≡ false
      → lookup me.secret_name (reconcile_one age w name me c).0.secrets
        ≡ some (minted_or b64 (w.apply_fails me.secret_name) (w.generate me.secret_name))
  unfolding reconcile_one get_materializer_identity plan_env_reconcile
  overwritten w name b64 me c there fails spec =
      rw (spec, fails)
        (seeded_secret w name b64 me c (w.generate me.secret_name) (w.apply_fails me.secret_name)
          there refl)

  -- Two runs over a Secret that holds a key, for an env whose project and name are set; the Secret's read
  -- succeeds in one and fails in the other. Where it succeeds, the Secret holds the same key
  -- afterwards. Where it fails, the Secret holds a newly minted key, if minting and applying it
  -- succeed, and the old key only if either of these fails too.
  pub reconcile_one-read_failed :
      (w failing : Tick) (name b64 : Text) (me : ManagedEnv) (c : Cluster)
      → HoldsKey me.secret_name b64 c
      → w.read_fails me.secret_name ≡ false
      → failing.read_fails me.secret_name ≡ true
      → (is_empty me.project_recipient || is_empty me.env) ≡ false
      → (lookup me.secret_name (reconcile_one age w name me c).0.secrets ≡ some b64)
        × (lookup me.secret_name (reconcile_one age failing name me c).0.secrets
            ≡ some (
                minted_or b64
                  (failing.apply_fails me.secret_name)
                  (failing.generate me.secret_name)))
  reconcile_one-read_failed w failing name b64 me c (there, filled) reads fails spec = (
    reconcile_one-secrets w name me.secret_name b64 me c (there, filled) reads ∙ there,
    overwritten failing name b64 me c there fails spec,
  )
