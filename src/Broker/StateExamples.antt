-- ===== src/Broker/StateExamples.antt =====
-- The broker's stores on concrete contents.
use mathlib.Core.Option.{some-injective}
use gitseal.Prelude.{
  ◌⊎◌, inr, All, ◌≤◌, int_key, sym, ◌+◌, ◌<◌, ◌≡◌, refl, true, false, not, Option, none, some, List,
  [], ◌∷◌, Text, text, text_eq, pos, ltb, ok, if◌then◌else◌, ◌&&◌, text_key, arith, is_empty,
}
use gitseal.Prelude.Dict.{Dict, NodupKeys, lookup, insert, keys}
use gitseal.Age.{toy}
use gitseal.Age.Toy.{parse}
use gitseal.Broker.State.{Broker, IdentityIndex, ProjectEnv, ChallengeStore, KeyStore, IndexEntry}
use gitseal.Broker.Challenge.{issue, make_room, store_nonce}
use gitseal.Broker.Challenge.Runs.{
  Request, to_issue, to_consume, serve_all, count_spent, count_given, one, is_held,
  serve_all_balance,
}
use gitseal.Broker.Challenge.SingleUse.{is_live, IsValid, issue-is_live}
use gitseal.Broker.Keys.{poll_reload, key_count, key_for_pubkey, scan_identities}
use gitseal.Broker.Keys.Laws.{last_effective, poll_reload-keys, key_for_pubkey_sound}
use gitseal.Broker.Registry.{
  RegisterRequest, handle_recipient_register, handle_registry_snapshot, static_projects, incomplete,
  overlay_projects, collect_projects, overlay_project, overlay_envs,
}
use gitseal.Broker.Registry.Laws.{
  IsServed, env_at, handle_registry_snapshot-IsServed, handle_recipient_register-ok,
}
use gitseal.Broker.Registry.Overlay.{registered}
use gitseal.Broker.Identity.{Fetcher, build_index, add_projects, add_users, add_user, add_lines}
use gitseal.Broker.Identity.Soundness.{Justified, MemberOf, build_index-Justified}
use gitseal.Broker.Reconcile.{
  covered_project_ids, fetched_members, git_lab_fetcher, reconcile_identity_index,
}
use gitseal.Broker.Reconcile.Fetched.{GaveProject, reconcile_identity_index-GaveProject}
use gitseal.Broker.Reconcile.Swapped.{with_built, reconcile_identity_index-swapped}
use gitseal.Broker.World.{GitLab, unreachable}
use gitseal.Broker.Examples.{broker, gitlab, ssh}

abbrev store : ChallengeStore
store = record { ttl = 60; expiries = (text "n", 50) ∷ [] }

store-IsValid : IsValid store
unfolding IsValid lookup
store-IsValid = ((refl, tt), omega arith)

issued : (issue 10 11 (text "m") store).1 ≡ some (text "m")
unfolding issue make_room store_nonce
issued = refl

issue-is_live_example : is_live 12 (text "n") (issue 10 11 (text "m") store).0 ≡ (
    if text_eq (text "m") (text "n") then not (ltb (11 + 60) 12) else is_live 12 (text "n") store)
issue-is_live_example =
    issue-is_live 10 11 12 (text "n") (text "m") (text "m") store store-IsValid (omega arith) issued

abbrev ticks : List (Option KeyStore × List Text)
ticks =
    (none, [])
    ∷ (some (record { identities = (pos 8, text "key8") ∷ [] }), text "bad" ∷ [])
    ∷ (some (record { identities = [] }), [])
    ∷ []

poll_reload-keys_example : (poll_reload ticks broker).keys ≡ last_effective ticks broker.keys
poll_reload-keys_example = poll_reload-keys ticks broker

broker-count : 0 < key_count broker.keys
unfolding key_count
broker-count = omega arith

found_key : key_for_pubkey toy broker.keys (text "human") ≡ some (text "human", pos 7)
unfolding key_for_pubkey scan_identities parse text_eq
found_key = refl

abbrev one_key : KeyStore
one_key = record { identities = (pos 7, text "human") ∷ [] }

one_key-NodupKeys : NodupKeys one_key.identities
unfolding lookup
one_key-NodupKeys = (refl, tt)

broker-NodupKeys : (ks : KeyStore) → broker.keys ≡ some ks → NodupKeys ks.identities
broker-NodupKeys ks e =
    let same : one_key ≡ ks = some-injective one_key ks e in rw (sym same) one_key-NodupKeys

key_for_pubkey_sound_example :
    (ks : KeyStore) × (broker.keys ≡ some ks)
    × (lookup (pos 7) ks.identities ≡ some (text "human"))
    × ((id : Text) × (toy.parse_identity (text "human") ≡ some id)
        × (toy.recipient_of id ≡ text "human"))
key_for_pubkey_sound_example =
    key_for_pubkey_sound toy (text "human") broker.keys (text "human") (pos 7) broker-NodupKeys
      found_key

abbrev registration : RegisterRequest
registration = record {
  project_recipient = text "human";
  env = text "prod";
  entry = record {
    recipient = text "age1";
    cluster = text "c";
    namespace = text "ns";
    min_level = pos 40;
  };
}

abbrev registering : Broker
registering = record broker { register_token = text "tok" }

-- prod is in the static registry, and a recipient is registered for it
abbrev static_env : ProjectEnv
static_env = record {
  cluster = text "c0";
  namespace = text "ns0";
  min_level = pos 30;
  recipient = text "age0";
}

abbrev overlaying : Broker
overlaying = record registering {
  registry = some (record {
    projects =
        (
          text "human",
          record {
            project_id = pos 7;
            envs = some ((text "prod", static_env) ∷ []);
            env_cluster = [];
            env_min_level = [];
            cluster_recipients = [];
          },
        )
        ∷ [];
    users = [];
    user_keys = [];
  });
  recipients = some (record {
    recipients =
        (
          (text "human", text "prod"),
          record {
            recipient = text "age1";
            cluster = [];
            namespace = text "ns";
            min_level = pos 0;
          },
        )
        ∷ [];
  });
}

handle_registry_snapshot-IsServed_example :
    IsServed
      (env_at (static_projects overlaying.registry) (text "human") (text "prod"))
      (registered overlaying.recipients (text "human") (text "prod"))
      (env_at (handle_registry_snapshot overlaying) (text "human") (text "prod"))
handle_registry_snapshot-IsServed_example =
    handle_registry_snapshot-IsServed overlaying (text "human") (text "prod")

-- the registered recipient and namespace, the static cluster and level
overlaid_prod :
    env_at (handle_registry_snapshot overlaying) (text "human") (text "prod")
    ≡ some (record {
      cluster = text "c0";
      namespace = text "ns";
      min_level = pos 30;
      recipient = text "age1";
    })
unfolding handle_registry_snapshot overlay_projects collect_projects lookup text_eq keys
    overlay_project insert overlay_envs
overlaid_prod = refl

accepted :
    (handle_recipient_register true (text "tok") false (some registration) registering).1.status
    ≡ 200
unfolding handle_recipient_register text_eq
accepted = refl

handle_recipient_register-ok_example :
    (text "tok" ≡ text "tok")
    × (is_empty (text "tok") ≡ false)
    × (incomplete registration ≡ false)
    × (registered
          (handle_recipient_register true
            (text "tok")
            false
            (some registration)
            registering).0.recipients
          (text "human")
          (text "prod")
        ≡ (if text_eq (text "human") (text "human") && text_eq (text "prod") (text "prod")
            then some registration.entry
            else none))
handle_recipient_register-ok_example =
    handle_recipient_register-ok true (text "tok") (text "human") (text "prod") false registration
      registering accepted

abbrev fetcher : Fetcher
fetcher = record { members = λ pid. ok (pos 3 ∷ []); keys = λ uid. ok (text "key" ∷ []) }

abbrev entry : IndexEntry
entry = record { user_id = pos 3; pub_key = text "key" }

built : build_index ssh (pos 7 ∷ []) fetcher ≡ ok ((text "key", entry) ∷ [])
unfolding build_index add_projects add_users add_user add_lines insert
built = refl

indexed : lookup (text "key") ((text "key", entry) ∷ []) ≡ some entry
unfolding lookup text_eq
indexed = refl

build_index-Justified_example :
    Justified ssh fetcher (MemberOf fetcher (pos 7 ∷ [])) (text "key") entry
build_index-Justified_example =
    build_index-Justified ssh (pos 7 ∷ []) fetcher ((text "key", entry) ∷ []) (text "key") entry
      built indexed

abbrev refreshed_broker : Broker
refreshed_broker = record broker { last_miss = some 100 }

-- a GitLab that does not answer
abbrev down : GitLab
down = record gitlab { members = λ token pid. unreachable }

reconcile_identity_index-GaveProject_example :
    (reconcile_identity_index down ssh broker ≡ (broker, false))
    ⊎ All (GaveProject down broker.service_token) (covered_project_ids broker.keys)
reconcile_identity_index-GaveProject_example = reconcile_identity_index-GaveProject down ssh broker

-- what the theorem leaves open is settled by a run: nothing is swapped
down_fails : reconcile_identity_index down ssh broker ≡ (broker, false)
unfolding reconcile_identity_index build_index add_projects covered_project_ids git_lab_fetcher keys
    fetched_members
down_fails = refl

all_given : All (GaveProject gitlab broker.service_token) (covered_project_ids broker.keys)
unfolding covered_project_ids keys
all_given = (inr (pos 3 ∷ [], refl, ((text "key" ∷ [], refl), tt)), tt)

one_project : is_empty (covered_project_ids broker.keys) ≡ false
unfolding covered_project_ids keys
one_project = refl

abbrev old_index : IdentityIndex
old_index = record { entries = (text "key", record { user_id = pos 3; pub_key = text "key" }) ∷ [] }

reconcile_identity_index-swapped_example :
    (m : Dict Text IndexEntry) × (build_index ssh
        (covered_project_ids broker.keys)
        (git_lab_fetcher gitlab broker.service_token)
      ≡ ok m)
    × (reconcile_identity_index gitlab ssh broker ≡ with_built broker old_index m)
reconcile_identity_index-swapped_example =
    reconcile_identity_index-swapped gitlab ssh broker old_index refl refl one_project all_given

abbrev requests : List Request
requests = to_issue 10 11 (text "m") ∷ to_consume 12 (text "m") ∷ to_consume 13 (text "m") ∷ []

serve_all_balance_example :
    IsValid (serve_all requests store)
    × (count_spent (text "m") requests store + one (is_held (text "m") (serve_all requests store))
        ≤ count_given (text "m") requests store + one (is_held (text "m") store))
serve_all_balance_example = serve_all_balance requests (text "m") store store-IsValid
