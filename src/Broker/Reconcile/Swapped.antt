-- ===== src/Broker/Reconcile/Swapped.antt =====
-- identity_reconcile.go: a refresh for which GitLab gives everything swaps the index.
use gitseal.Prelude.{
  ◌≡◌, refl, Bool, true, false, none, some, List, [], ◌∷◌, Text, ℤ, eqb_ℤ, any, All, is_empty, not,
  if◌then◌else◌, ok, err, ◌>>=◌, inl, inr,
}
use gitseal.Prelude.Dict.{Dict}
use gitseal.Broker.State.{IndexEntry, IdentityIndex, Broker}
use gitseal.Broker.World.{Reply, unreachable, answered, GitLab, Ssh}
use gitseal.Broker.Identity.{
  not_visible, Build, swap_index, add_lines, add_user, add_users, add_projects, add_members,
  build_index,
}
use gitseal.Broker.Reconcile.{
  fetched_members, fetched_keys, nonempty_lines, git_lab_fetcher, covered_project_ids, swapped_in,
  rebuilt, reconcile_identity_index,
}
use gitseal.Broker.Reconcile.Fetched.{is_hidden, GaveKeys, GaveProject}

-- The other way: what GitLab gives is enough.
module _ (gitlab : GitLab) (token : Text) (ssh : Ssh) where
  add_user_total :
      (uid : ℤ) (b : Build)
      → GaveKeys gitlab token uid
      → (b' : Build) × (add_user ssh (git_lab_fetcher gitlab token) uid b ≡ ok b')
  unfolding add_user git_lab_fetcher fetched_keys
  add_user_total uid b (body, e) = by_seen (any (eqb_ℤ uid) b.seen)
    where
      by_seen :
          (s : Bool)
          → (b' : Build) × ((if s
                then ok b
                else (fetched_keys (gitlab.user_keys token uid) >>= λ lines.
                    ok (record { out = add_lines ssh uid lines b.out; seen = uid ∷ b.seen })))
              ≡ ok b')
      by_seen true = (b, refl)
      by_seen false = (
        record { out = add_lines ssh uid (nonempty_lines body) b.out; seen = uid ∷ b.seen },
        rw e refl,
      )

  add_users_total :
      (uids : List ℤ) (b : Build)
      → All (GaveKeys gitlab token) uids
      → (b' : Build) × (add_users ssh (git_lab_fetcher gitlab token) uids b ≡ ok b')
  unfolding add_users
  add_users_total [] b _ = (b, refl)
  add_users_total (uid ∷ uids) b (h, hs) =
      let (b₁, first) = add_user_total uid b h in
      let (b', rest) = add_users_total uids b₁ hs in (b', rw (first) rest)

  hidden_members : (r : Reply (List ℤ)) → is_hidden r ≡ true → fetched_members r ≡ err not_visible
  unfolding fetched_members
  hidden_members unreachable h = cc
  hidden_members (answered code body) h = rw (h) refl

  given_members :
      (r : Reply (List ℤ)) (uids : List ℤ)
      → r ≡ answered 200 (some uids)
      → fetched_members r ≡ ok uids
  unfolding fetched_members
  given_members r uids e = rw (e) refl

  add_project_total :
      (pid : ℤ) (b : Build)
      → GaveProject gitlab token pid
      → (b' : Build) × (add_members ssh
            (git_lab_fetcher gitlab token)
            (fetched_members (gitlab.members token pid))
            b
          ≡ ok b')
  add_project_total pid b (inl hidden) =
      (b, rw (hidden_members (gitlab.members token pid) hidden) refl)
  add_project_total pid b (inr (uids, given, h)) =
      let (b', e) = add_users_total uids b h in
      (b', rw (given_members (gitlab.members token pid) uids given) e)

  add_projects_total :
      (pids : List ℤ) (b : Build)
      → All (GaveProject gitlab token) pids
      → (b' : Build) × (add_projects ssh (git_lab_fetcher gitlab token) pids b ≡ ok b')
  unfolding add_projects git_lab_fetcher
  add_projects_total [] b _ = (b, refl)
  add_projects_total (pid ∷ pids) b (h, hs) =
      let (b₁, first) = add_project_total pid b h in
      let (b', rest) = add_projects_total pids b₁ hs in (b', rw (first) rest)

  build_index_total :
      (pids : List ℤ)
      → All (GaveProject gitlab token) pids
      → (m : Dict Text IndexEntry) × (build_index ssh pids (git_lab_fetcher gitlab token) ≡ ok m)
  unfolding build_index
  build_index_total pids h =
      let (b, e) = add_projects_total pids (record { out = []; seen = [] }) h in (b.out, rw e refl)

-- The broker with a built index that has an entry, and the one before if the built one is empty.
abbrev pub with_built : Broker → IdentityIndex → Dict Text IndexEntry → Broker × Bool
with_built b ix m = (
  record b { identity = some (if is_empty m then ix else record { entries = m }) },
  not (is_empty m),
)

-- With a service token and an index, and at least one project in the key store, a refresh builds an index
-- and swaps it in, if it has an entry, whenever GitLab answers for each project either that it is not
-- to be seen (404 or 403), or with its members and the keys of every one of them. Nothing else of the
-- broker changes.
pub reconcile_identity_index-swapped :
    (gitlab : GitLab) (ssh : Ssh) (b : Broker) (ix : IdentityIndex)
    → is_empty b.service_token ≡ false
    → b.identity ≡ some ix
    → is_empty (covered_project_ids b.keys) ≡ false
    → All (GaveProject gitlab b.service_token) (covered_project_ids b.keys)
    → (m : Dict Text IndexEntry) × (build_index ssh
          (covered_project_ids b.keys)
          (git_lab_fetcher gitlab b.service_token)
        ≡ ok m)
      × (reconcile_identity_index gitlab ssh b ≡ with_built b ix m)
unfolding reconcile_identity_index swap_index
reconcile_identity_index-swapped gitlab ssh b ix token there some_project h =
    by_projects (covered_project_ids b.keys) some_project h
  where
    swapped : (m : Dict Text IndexEntry) → swapped_in b ix (ok m) ≡ with_built b ix m
    swapped [] = refl
    swapped (e ∷ m) = refl

    by_projects :
        (pids : List ℤ)
        → is_empty pids ≡ false
        → All (GaveProject gitlab b.service_token) pids
        → (m : Dict Text IndexEntry) × (build_index ssh pids
              (git_lab_fetcher gitlab b.service_token)
            ≡ ok m)
          × ((elim (if is_empty b.service_token then none else b.identity) [
            | none ↦ (b, false)
            | some ix' ↦ rebuilt gitlab ssh b ix' pids
          ])
              ≡ with_built b ix m)
    by_projects [] e _ = cc
    by_projects (pid ∷ pids) _ gave =
        let (m, built) = build_index_total gitlab b.service_token ssh (pid ∷ pids) gave in
        (m, built, rw (token, there, built) (swapped m))
