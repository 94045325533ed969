-- ===== src/Broker/Reconcile.antt =====
-- identity_reconcile.go: rebuilding the index from GitLab, and the throttle on refreshes after a miss.
pub mod Fetched
pub mod Laws
pub mod Swapped
use gitseal.Prelude.{
  ℕ, ◌+◌, ◌-◌, ◌*◌, ◌≡◌, Bool, true, false, not, ◌||◌, Option, none, some, List, [], ◌∷◌, Text, ℤ,
  is_empty, eqb, ltb, length, if◌then◌else◌, Result, ok, err, ◌>>=◌,
}
use gitseal.Prelude.Dict.{Dict, keys}
use gitseal.Broker.State.{KeyStore, IndexEntry, IdentityIndex, Broker}
use gitseal.Broker.World.{Reply, unreachable, answered, GitLab, Ssh}
use gitseal.Broker.Identity.{
  FetchError, transport, bad_body, not_visible, bad_status, Fetcher, build_index, swap_index,
}

-- the members closure of gitLabFetcher
unfoldable pub fetched_members : Reply (List ℤ) → Result FetchError (List ℤ)
fetched_members unreachable = err transport
fetched_members (answered code body) =
    if eqb code 404 || eqb code 403
    then err not_visible
    else if not (eqb code 200)
    then err (bad_status code)
    else (elim body [ none ↦ err bad_body | some uids ↦ ok uids ])

-- empty key lines are dropped
unfoldable pub nonempty_lines : List Text → List Text
nonempty_lines [] = []
nonempty_lines (line ∷ lines) =
    let rest = nonempty_lines lines in if is_empty line then rest else line ∷ rest

-- the keys closure of gitLabFetcher
unfoldable pub fetched_keys : Reply (List Text) → Result FetchError (List Text)
unfolding nonempty_lines
fetched_keys unreachable = err transport
fetched_keys (answered code body) =
    if not (eqb code 200)
    then err (bad_status code)
    else (elim body [ none ↦ err bad_body | some lines ↦ ok (nonempty_lines lines) ])

unfoldable pub git_lab_fetcher : GitLab → Text → Fetcher
unfolding fetched_members fetched_keys
git_lab_fetcher gitlab token = record {
  members = λ pid. fetched_members (gitlab.members token pid);
  keys = λ uid. fetched_keys (gitlab.user_keys token uid);
}

-- coveredProjectIDs
unfoldable pub covered_project_ids : Option KeyStore → List ℤ
covered_project_ids none = []
covered_project_ids (some ks) = keys ks.identities

abbrev pub with_index : Broker → IdentityIndex × Bool → Broker × Bool
with_index b (ix, swapped) = (record b { identity = some ix }, swapped)

-- a failed build keeps the last known good
abbrev pub swapped_in :
    Broker → IdentityIndex → Result FetchError (Dict Text IndexEntry) → Broker × Bool
swapped_in b ix (err e) = (b, false)
swapped_in b ix (ok m) = with_index b (swap_index m ix)

abbrev pub rebuilt : GitLab → Ssh → Broker → IdentityIndex → List ℤ → Broker × Bool
rebuilt gitlab ssh b ix [] = (b, false)
rebuilt gitlab ssh b ix (pid ∷ pids) =
    swapped_in b ix (build_index ssh (pid ∷ pids) (git_lab_fetcher gitlab b.service_token))

abbrev enabled : Broker → Option IdentityIndex
enabled b = if is_empty b.service_token then none else b.identity

abbrev pub reconciled : GitLab → Ssh → Broker → Option IdentityIndex → Broker × Bool
reconciled gitlab ssh b none = (b, false)
reconciled gitlab ssh b (some ix) = rebuilt gitlab ssh b ix (covered_project_ids b.keys)

-- ReconcileIdentityIndex, and whether it swapped
unfoldable pub reconcile_identity_index : GitLab → Ssh → Broker → Broker × Bool
unfolding swap_index
reconcile_identity_index gitlab ssh b = reconciled gitlab ssh b (enabled b)

-- 10 seconds
abbrev pub on_miss_min_interval : ℕ
on_miss_min_interval = 10000000000

-- `now.Sub(b.lastMiss) < onMissMinInterval`; a clock that went back gives a negative difference.
abbrev pub throttled : ℕ → Option ℕ → Bool
throttled now none = false
throttled now (some last) = ltb now (last + on_miss_min_interval)

abbrev refreshed : GitLab → Ssh → ℕ → Broker → Option IdentityIndex → Broker
refreshed gitlab ssh now b none = b
refreshed gitlab ssh now b (some ix) =
    if throttled now b.last_miss
    then b
    else (reconcile_identity_index gitlab ssh (record b { last_miss = some now })).0

-- onMissRefresh
unfoldable pub on_miss_refresh : GitLab → Ssh → ℕ → Broker → Broker
on_miss_refresh gitlab ssh now b = refreshed gitlab ssh now b (enabled b)
