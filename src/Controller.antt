-- ===== src/Controller.antt =====
-- cmd/gitseal-controller/main.go and internal/client/controller.go: the reconciler of one cluster.
-- The cluster's key Secrets, the registrations that were sent and the statuses that were patched are
-- the state; what kubectl, the key generator and the broker answer in one tick is an argument.
pub mod Laws
mod Examples
use gitseal.Prelude.{
  ℕ, Bool, true, false, not, ◌&&◌, ◌||◌, Option, none, some, List, [], ◌∷◌, ◌++◌, Text, text,
  text_key, text_eq, ℤ, is_empty, if◌then◌else◌,
}
use gitseal.Prelude.Dict.{Dict, lookup, insert}
use gitseal.Strconv.{trim_space}
use gitseal.Base64
use gitseal.Age.{Age}

-- ManagedEnv
pub record ManagedEnv : Type 0 where
  pub project_recipient : Text
  pub env : Text
  pub namespace : Text
  pub min_level : ℤ
  pub secret_name : Text

-- ReconcileAction
pub data ReconcileAction : Type 0 where
  reconcile_error reconcile_generate reconcile_adopt : ReconcileAction

-- ReconcilePlan
pub record ReconcilePlan : Type 0 where
  pub action : ReconcileAction
  pub register : Bool
  pub recipient : Text

-- PlanEnvReconcile
unfoldable pub plan_env_reconcile : ManagedEnv → Bool → Text → ReconcilePlan
plan_env_reconcile me secret_exists existing_recipient =
    if not secret_exists
    then record { action = reconcile_generate; register = true; recipient = [] }
    else if is_empty existing_recipient
    then record { action = reconcile_error; register = false; recipient = [] }
    else record { action = reconcile_adopt; register = true; recipient = existing_recipient }

-- RecipientRegistration
pub record Registration : Type 0 where
  pub project_recipient : Text
  pub env : Text
  pub recipient : Text
  pub cluster : Text
  pub namespace : Text
  pub min_level : ℤ

-- What patchStatus writes: the resource, the recipient and the phase.
pub record Status : Type 0 where
  pub name : Text
  pub recipient : Text
  pub phase : Text

pub record Cluster : Type 0 where
  -- the field `identity` of each Secret, in base64
  pub secrets : Dict Text Text
  pub registered : List Registration
  pub statuses : List Status

-- RepoKeyPair
pub record KeyPair : Type 0 where
  pub identity : Text
  pub recipient : Text

pub record Tick : Type 0 where
  -- whether `kubectl get` of a Secret fails for another reason than its absence
  pub read_fails : Text → Bool
  -- whether `kubectl apply` of a Secret fails
  pub apply_fails : Text → Bool
  -- GenerateRepoKey, for a Secret
  pub generate : Text → Option KeyPair
  -- whether the broker answers the registration with 200
  pub posts : Registration → Bool
  pub cluster_name : Text

abbrev pub unreadable_or : Option Text → Bool × Text
unreadable_or none = (true, [])
unreadable_or (some raw) = (true, raw)

-- the trimmed output of `kubectl get`: an absent Secret and an empty field look alike
abbrev pub read_output : Option Text → Bool × Text
read_output none = (false, [])
read_output (some out) =
    if is_empty (trim_space out)
    then (false, [])
    else unreadable_or (Base64.decode (trim_space out))

-- getMaterializerIdentity: whether it exists, and the identity
unfoldable pub get_materializer_identity : Tick → Cluster → Text → Bool × Text
get_materializer_identity w c secret =
    if w.read_fails secret then (false, []) else read_output (lookup secret c.secrets)

abbrev pub or_blank : Option Text → Text
or_blank none = []
or_blank (some s) = s

pub data ReconcileError : Type 0 where
  missing_spec generate_failed seed_failed not_derivable register_failed : ReconcileError

abbrev pub registration : Tick → ManagedEnv → Text → Registration
registration w me recipient = record {
  project_recipient = me.project_recipient;
  env = me.env;
  recipient = recipient;
  cluster = w.cluster_name;
  namespace = me.namespace;
  min_level = me.min_level;
}

abbrev pub patch_status : Text → Text → Text → Cluster → Cluster
patch_status name recipient phase c = record c {
  statuses = record { name = name; recipient = recipient; phase = phase } ∷ c.statuses;
}

-- RegisterRecipient
unfoldable pub register_recipient : Tick → Registration → Bool
register_recipient w reg =
    not (is_empty reg.project_recipient || (is_empty reg.env || is_empty reg.recipient))
    && w.posts reg

-- The registration and the status, once there is a key.
unfoldable pub register_and_patch :
    Tick → Text → ManagedEnv → Text → Cluster → Cluster × Option ReconcileError
unfolding register_recipient
register_and_patch w name me recipient c =
    if register_recipient w (registration w me recipient)
    then (
      patch_status name recipient (text "Registered")
          (record c { registered = registration w me recipient ∷ c.registered }),
      none,
    )
    else (c, some register_failed)

-- ReconcileGenerate: mint a key, seed the Secret, register.
abbrev pub seed_and_register :
    Tick → Text → ManagedEnv → Option KeyPair → Cluster → Cluster × Option ReconcileError
seed_and_register w name me none c = (c, some generate_failed)
seed_and_register w name me (some kp) c =
    if w.apply_fails me.secret_name
    then (c, some seed_failed)
    else register_and_patch w name me kp.recipient
        (record c { secrets = insert me.secret_name (Base64.encode kp.identity) c.secrets })

abbrev pub run_plan :
    Tick → Text → ManagedEnv → ReconcileAction → Text → Cluster → Cluster × Option ReconcileError
run_plan w name me reconcile_generate recipient c =
    seed_and_register w name me (w.generate me.secret_name) c
run_plan w name me reconcile_adopt recipient c = register_and_patch w name me recipient c
run_plan w name me reconcile_error recipient c = (c, some not_derivable)

abbrev pub follow_plan :
    Tick → Text → ManagedEnv → Cluster → ReconcilePlan → Cluster × Option ReconcileError
follow_plan w name me c plan = run_plan w name me plan.action plan.recipient c

-- one item of the list: its name, its project and the env that it manages
abbrev pub Item : Type 0
Item = Text × Text × ManagedEnv

abbrev pub after_one : Text → Cluster × Option ReconcileError → Cluster
after_one name (c, none) = c
after_one name (c, some e) = patch_status name [] (text "Error") c

module _ (age : Age) where
  -- RecipientFromIdentity
  abbrev pub derived : Option Text → Option Text
  derived none = none
  derived (some id) = some (age.recipient_of id)

  -- the recipient of what was read, blank if there is none
  abbrev pub existing_recipient : Bool × Text → Text
  existing_recipient (exists, identity) =
      if exists && not (is_empty identity)
      then or_blank (derived (age.parse_identity identity))
      else []

  -- reconcileOne
  unfoldable pub reconcile_one :
      Tick → Text → ManagedEnv → Cluster → Cluster × Option ReconcileError
  unfolding get_materializer_identity plan_env_reconcile register_and_patch
  reconcile_one w name me c =
      if is_empty me.project_recipient || is_empty me.env
      then (c, some missing_spec)
      else (let read = get_materializer_identity w c me.secret_name in
          follow_plan w name me c (plan_env_reconcile me read.0 (existing_recipient read)))

  abbrev pub reconcile_item : Tick → Item → Cluster → Cluster
  reconcile_item w (name, project, me) c =
      if is_empty project
      then patch_status name [] (text "Error") c
      else after_one name (reconcile_one w name me c)

  -- reconcileAll
  unfoldable pub reconcile_all : Tick → List Item → Cluster → Cluster
  unfolding reconcile_one
  reconcile_all w [] c = c
  reconcile_all w (item ∷ items) c = reconcile_all w items (reconcile_item w item c)

  -- The loop of main: one pass for each tick, over the items that are listed then.
  unfoldable pub run_ticks : List (Tick × List Item) → Cluster → Cluster
  unfolding reconcile_all
  run_ticks [] c = c
  run_ticks ((w, items) ∷ ticks) c = run_ticks ticks (reconcile_all w items c)
