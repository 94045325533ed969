-- ===== src/Broker/Reconcile/Laws.antt =====
-- identity_reconcile.go: what a refresh may change, and when it may run.
use gitseal.Prelude.{
  ℕ, ◌+◌, ◌<◌, ◌≡◌, refl, Bool, true, false, Option, none, some, List, [], ◌∷◌, Text, ℤ,
  if◌then◌else◌, Result, ok, err, arith,
}
use gitseal.Prelude.Dict.{Dict}
use gitseal.Broker.State.{IndexEntry, IdentityIndex, Broker}
use gitseal.Broker.World.{GitLab, Ssh}
use gitseal.Broker.Identity.{FetchError, build_index, swap_index}
use gitseal.Broker.Reconcile.{
  covered_project_ids, git_lab_fetcher, swapped_in, rebuilt, enabled, reconciled,
  reconcile_identity_index, on_miss_min_interval, throttled, refreshed, on_miss_refresh,
}

-- Two brokers that differ in the index and in the time of the last refresh at most.
abbrev pub SameButIndex : Broker → Broker → Type 0
SameButIndex b b' = b' ≡ record b { identity = b'.identity; last_miss = b'.last_miss }

swapped_in-SameButIndex :
    (b : Broker) (ix : IdentityIndex) (r : Result FetchError (Dict Text IndexEntry))
    → SameButIndex b (swapped_in b ix r).0
unfolding swap_index
swapped_in-SameButIndex b ix (ok []) = refl
swapped_in-SameButIndex b ix (ok (e ∷ m)) = refl
swapped_in-SameButIndex b ix (err e) = refl

rebuilt-SameButIndex :
    (g : GitLab) (s : Ssh) (b : Broker) (ix : IdentityIndex) (pids : List ℤ)
    → SameButIndex b (rebuilt g s b ix pids).0
rebuilt-SameButIndex g s b ix [] = refl
rebuilt-SameButIndex g s b ix (pid ∷ pids) =
    swapped_in-SameButIndex b ix (build_index s (pid ∷ pids) (git_lab_fetcher g b.service_token))

reconciled-SameButIndex :
    (g : GitLab) (s : Ssh) (b : Broker) (o : Option IdentityIndex)
    → SameButIndex b (reconciled g s b o).0
reconciled-SameButIndex g s b none = refl
reconciled-SameButIndex g s b (some ix) = rebuilt-SameButIndex g s b ix (covered_project_ids b.keys)

reconcile_identity_index-SameButIndex :
    (g : GitLab) (s : Ssh) (b : Broker) → SameButIndex b (reconcile_identity_index g s b).0
unfolding reconcile_identity_index
reconcile_identity_index-SameButIndex g s b = reconciled-SameButIndex g s b (enabled b)

missed-SameButIndex :
    (g : GitLab) (s : Ssh) (now : ℕ) (b : Broker) (ix : IdentityIndex) (early : Bool)
    → SameButIndex b
        (if early then b else (reconcile_identity_index g s (record b { last_miss = some now })).0)
missed-SameButIndex g s now b ix true = refl
missed-SameButIndex g s now b ix false =
    rw (reconcile_identity_index-SameButIndex g s (record b { last_miss = some now })) refl

refreshed-SameButIndex :
    (g : GitLab) (s : Ssh) (now : ℕ) (b : Broker) (o : Option IdentityIndex)
    → SameButIndex b (refreshed g s now b o)
refreshed-SameButIndex g s now b none = refl
refreshed-SameButIndex g s now b (some ix) =
    missed-SameButIndex g s now b ix (throttled now b.last_miss)

-- A refresh changes the index and the time of the last refresh, and nothing else.
pub on_miss_refresh-SameButIndex :
    (g : GitLab) (s : Ssh) (now : ℕ) (b : Broker) → SameButIndex b (on_miss_refresh g s now b)
unfolding on_miss_refresh
on_miss_refresh-SameButIndex g s now b = refreshed-SameButIndex g s now b (enabled b)

refreshed-throttled :
    (g : GitLab) (s : Ssh) (now last : ℕ) (b : Broker) (o : Option IdentityIndex)
    → b.last_miss ≡ some last
    → now < last + on_miss_min_interval
    → refreshed g s now b o ≡ b
refreshed-throttled g s now last b none h early = refl
refreshed-throttled g s now last b (some ix) h early = rw (h) (ground arith)

-- Within the interval after the last refresh there is no other: the broker, its index included, stays.
pub on_miss_refresh-throttled :
    (g : GitLab) (s : Ssh) (now last : ℕ) (b : Broker)
    → b.last_miss ≡ some last
    → now < last + on_miss_min_interval
    → on_miss_refresh g s now b ≡ b
unfolding on_miss_refresh
on_miss_refresh-throttled g s now last b h early =
    refreshed-throttled g s now last b (enabled b) h early
