-- ===== src/Controller/Examples.antt =====
-- One Secret over two ticks, and one failed read, over the toy age.
use gitseal.Prelude.{
  ◌≡◌, refl, Bool, true, false, some, List, [], ◌∷◌, text, text_key, text_eq, pos,
}
use gitseal.Prelude.Dict.{lookup}
use gitseal.Strconv.{trim_space, trim_left}
use gitseal.Base64
use gitseal.Age.{toy}
use gitseal.Controller.{ManagedEnv, Cluster, KeyPair, Tick, Item, reconcile_one, run_ticks}
use gitseal.Controller.Laws.{HoldsKey, run_ticks-HoldsKey, reconcile_one-read_failed}

abbrev me : ManagedEnv
me = record {
  project_recipient = text "h";
  env = text "prod";
  namespace = text "demo";
  min_level = pos 30;
  secret_name = text "key";
}

abbrev kp : KeyPair
kp = record { identity = text "new"; recipient = text "new" }

abbrev cluster : Cluster
cluster = record { secrets = (text "key", text "b2xk") ∷ []; registered = []; statuses = [] }

abbrev tick : Bool → Tick
tick fails = record {
  read_fails = λ s. fails;
  apply_fails = λ s. false;
  generate = λ s. some kp;
  posts = λ r. true;
  cluster_name = text "c";
}

abbrev items : List Item
items = (text "cr", text "project", me) ∷ []

holds : HoldsKey (text "key") (text "b2xk") cluster
unfolding lookup text_eq trim_space trim_left
holds = (refl, refl)

run_ticks-HoldsKey_example :
    HoldsKey
      (text "key")
      (text "b2xk")
      (run_ticks toy ((tick false, items) ∷ (tick false, items) ∷ []) cluster)
run_ticks-HoldsKey_example =
    run_ticks-HoldsKey toy ((tick false, items) ∷ (tick false, items) ∷ []) (text "key")
      (text "b2xk") cluster holds (refl, (refl, tt))

reconcile_one-read_failed_example :
    (lookup (text "key") (reconcile_one toy (tick false) (text "cr") me cluster).0.secrets
      ≡ some (text "b2xk"))
    × (lookup (text "key") (reconcile_one toy (tick true) (text "cr") me cluster).0.secrets
        ≡ some (Base64.encode (text "new")))
reconcile_one-read_failed_example =
    reconcile_one-read_failed toy (tick false) (tick true) (text "cr") (text "b2xk") me cluster
      holds refl refl refl
