-- ===== src/Broker/Reconcile/Fetched.antt =====
-- identity_reconcile.go and identity_index.go: what a refresh that swaps the index rests on.
use gitseal.Prelude.{
  ◌≡◌, refl, sym, ap, Bool, true, false, ◌||◌, Option, none, some, List, [], ◌∷◌, Text, ℤ, eqb,
  eqb_ℤ, eqb_ℤ_iff, any, All, if◌then◌else◌, Result, ok, err, ok-inj, ◌>>=◌, >>=-eq-ok, Bool-cases,
  ◌⊎◌, inl, inr, arith,
}
use gitseal.Prelude.Dict.{Dict}
use gitseal.Broker.State.{IndexEntry, IdentityIndex, Broker}
use gitseal.Broker.World.{Reply, unreachable, answered, GitLab, Ssh}
use gitseal.Broker.Identity.{
  FetchError, not_visible, transport, bad_body, bad_status, Fetcher, Build, add_lines, add_user,
  add_users, add_projects, add_members, build_index,
}
use gitseal.Broker.Reconcile.{
  fetched_members, fetched_keys, git_lab_fetcher, covered_project_ids, swapped_in, rebuilt, enabled,
  reconciled, reconcile_identity_index,
}

module _ (ssh : Ssh) (f : Fetcher) where
  abbrev HasKeys : ℤ → Type 0
  HasKeys uid = (lines : List Text) × (f.keys uid ≡ ok lines)

  seen-HasKeys :
      (uid : ℤ) (seen : List ℤ) → All HasKeys seen → any (eqb_ℤ uid) seen ≡ true → HasKeys uid
  seen-HasKeys uid [] _ m = cc
  seen-HasKeys uid (v ∷ seen) (h, hs) m = elim (Bool-cases (eqb_ℤ uid v)) [
    | inl same ↦ rw ((eqb_ℤ_iff uid v).0 same) h
    | inr other ↦ seen-HasKeys uid seen hs (ground arith)
  ]

  add_user-HasKeys :
      (uid : ℤ) (b b' : Build)
      → All HasKeys b.seen
      → add_user ssh f uid b ≡ ok b'
      → HasKeys uid × All HasKeys b'.seen
  unfolding add_user
  add_user-HasKeys uid b b' h e = by_seen (any (eqb_ℤ uid) b.seen) refl e
    where
      by_seen :
          (s : Bool)
          → any (eqb_ℤ uid) b.seen ≡ s
          → (if s
              then ok b
              else (f.keys uid >>= λ lines.
                  ok (record { out = add_lines ssh uid lines b.out; seen = uid ∷ b.seen })))
            ≡ ok b'
          → HasKeys uid × All HasKeys b'.seen
      by_seen true m e' =
          (seen-HasKeys uid b.seen h m, rw (sym (ap (λ (c : Build). c.seen) (ok-inj e'))) h)
      by_seen false m e' =
          let (lines, got, done) = >>=-eq-ok (f.keys uid) _ e' in
          ((lines, got), rw (sym (ap (λ (c : Build). c.seen) (ok-inj done))) ((lines, got), h))

  add_users-HasKeys :
      (uids : List ℤ) (b b' : Build)
      → All HasKeys b.seen
      → add_users ssh f uids b ≡ ok b'
      → All HasKeys uids × All HasKeys b'.seen
  unfolding add_users
  add_users-HasKeys [] b b' h e = (tt, rw (sym (ap (λ (c : Build). c.seen) (ok-inj e))) h)
  add_users-HasKeys (uid ∷ uids) b b' h e =
      let (b₁, first, rest) = >>=-eq-ok (add_user ssh f uid b) _ e in
      let (hu, h₁) = add_user-HasKeys uid b b₁ h first in
      let (hus, h₂) = add_users-HasKeys uids b₁ b' h₁ rest in ((hu, hus), h₂)

  -- The project is not visible, or its members are known and the keys of each.
  abbrev HasMembers : ℤ → Type 0
  HasMembers pid =
      (f.members pid ≡ err not_visible)
      ⊎ ((uids : List ℤ) × (f.members pid ≡ ok uids) × All HasKeys uids)

  add_members-HasMembers :
      (pid : ℤ) (b b' : Build) (r : Result FetchError (List ℤ))
      → f.members pid ≡ r
      → All HasKeys b.seen
      → add_members ssh f r b ≡ ok b'
      → HasMembers pid × All HasKeys b'.seen
  add_members-HasMembers pid b b' (ok uids) m h e =
      let (hu, h') = add_users-HasKeys uids b b' h e in (inr (uids, m, hu), h')
  add_members-HasMembers pid b b' (err not_visible) m h e =
      (inl m, rw (sym (ap (λ (c : Build). c.seen) (ok-inj e))) h)
  add_members-HasMembers pid b b' (err transport) m h e = cc
  add_members-HasMembers pid b b' (err bad_body) m h e = cc
  add_members-HasMembers pid b b' (err (bad_status n)) m h e = cc

  add_projects-HasMembers :
      (pids : List ℤ) (b b' : Build)
      → All HasKeys b.seen
      → add_projects ssh f pids b ≡ ok b'
      → All HasMembers pids
  unfolding add_projects
  add_projects-HasMembers [] b b' h e = tt
  add_projects-HasMembers (pid ∷ pids) b b' h e =
      let (b₁, first, rest) = >>=-eq-ok (add_members ssh f (f.members pid) b) _ e in
      let (hp, h₁) = add_members-HasMembers pid b b₁ (f.members pid) refl h first in
      (hp, add_projects-HasMembers pids b₁ b' h₁ rest)

  build_index-HasMembers :
      (pids : List ℤ) (m : Dict Text IndexEntry)
      → build_index ssh pids f ≡ ok m
      → All HasMembers pids
  unfolding build_index
  build_index-HasMembers pids m e =
      let (b, built, _) =
        >>=-eq-ok (add_projects ssh f pids (record { out = []; seen = [] })) _ e in
      add_projects-HasMembers pids _ b tt built

fetched_members-eq-ok :
    (r : Reply (List ℤ)) (uids : List ℤ)
    → fetched_members r ≡ ok uids
    → r ≡ answered 200 (some uids)
unfolding fetched_members
fetched_members-eq-ok unreachable uids e = cc
fetched_members-eq-ok (answered code none) uids e = ground arith
fetched_members-eq-ok (answered code (some l)) uids e = ground arith

-- GitLab's answer says that the token cannot see the project.
abbrev pub is_hidden : Reply (List ℤ) → Bool
is_hidden unreachable = false
is_hidden (answered code body) = eqb code 404 || eqb code 403

fetched_members-is_hidden :
    (r : Reply (List ℤ)) → fetched_members r ≡ err not_visible → is_hidden r ≡ true
unfolding fetched_members
fetched_members-is_hidden unreachable e = cc
fetched_members-is_hidden (answered code none) e = ground arith
fetched_members-is_hidden (answered code (some l)) e = ground arith

fetched_keys-eq-ok :
    (r : Reply (List Text)) (lines : List Text)
    → fetched_keys r ≡ ok lines
    → (body : List Text) × (r ≡ answered 200 (some body))
unfolding fetched_keys
fetched_keys-eq-ok unreachable lines e = cc
fetched_keys-eq-ok (answered code none) lines e = ground arith
fetched_keys-eq-ok (answered code (some body)) lines e = (body, ground arith)

module _ (gitlab : GitLab) (token : Text) where
  -- GitLab gave the user's keys.
  abbrev pub GaveKeys : ℤ → Type 0
  GaveKeys uid = (body : List Text) × (gitlab.user_keys token uid ≡ answered 200 (some body))

  -- GitLab hid the project, or gave its members and the keys of each.
  abbrev pub GaveProject : ℤ → Type 0
  GaveProject pid =
      (is_hidden (gitlab.members token pid) ≡ true)
      ⊎ ((uids : List ℤ) × (gitlab.members token pid ≡ answered 200 (some uids))
          × All GaveKeys uids)

  HasKeys-GaveKeys :
      (ssh : Ssh) (uids : List ℤ)
      → All (HasKeys ssh (git_lab_fetcher gitlab token)) uids
      → All GaveKeys uids
  unfolding git_lab_fetcher
  HasKeys-GaveKeys ssh [] _ = tt
  HasKeys-GaveKeys ssh (uid ∷ uids) ((lines, e), h) =
      (fetched_keys-eq-ok (gitlab.user_keys token uid) lines e, HasKeys-GaveKeys ssh uids h)

  HasMembers-GaveProject :
      (ssh : Ssh) (pids : List ℤ)
      → All (HasMembers ssh (git_lab_fetcher gitlab token)) pids
      → All GaveProject pids
  unfolding git_lab_fetcher
  HasMembers-GaveProject ssh [] _ = tt
  HasMembers-GaveProject ssh (pid ∷ pids) (inl hidden, h) = (
    inl (fetched_members-is_hidden (gitlab.members token pid) hidden),
    HasMembers-GaveProject ssh pids h,
  )
  HasMembers-GaveProject ssh (pid ∷ pids) (inr (uids, e, ks), h) = (
    inr (
      uids,
      fetched_members-eq-ok (gitlab.members token pid) uids e,
      HasKeys-GaveKeys ssh uids ks,
    ),
    HasMembers-GaveProject ssh pids h,
  )

module _ (gitlab : GitLab) (ssh : Ssh) (b : Broker) where
  rebuilt-GaveProject :
      (ix : IdentityIndex) (pids : List ℤ)
      → (rebuilt gitlab ssh b ix pids ≡ (b, false)) ⊎ All (GaveProject gitlab b.service_token) pids
  rebuilt-GaveProject ix [] = inl refl
  rebuilt-GaveProject ix (pid ∷ pids) =
      by_build (build_index ssh (pid ∷ pids) (git_lab_fetcher gitlab b.service_token)) refl
    where
      by_build :
          (r : Result FetchError (Dict Text IndexEntry))
          → build_index ssh (pid ∷ pids) (git_lab_fetcher gitlab b.service_token) ≡ r
          → (swapped_in b ix r ≡ (b, false)) ⊎ All (GaveProject gitlab b.service_token) (pid ∷ pids)
      by_build (err e) built = inl refl
      by_build (ok m) built = inr (
          HasMembers-GaveProject gitlab b.service_token ssh (pid ∷ pids) (
            build_index-HasMembers ssh (git_lab_fetcher gitlab b.service_token) (pid ∷ pids) m
              built))

  reconciled-GaveProject :
      (o : Option IdentityIndex)
      → (reconciled gitlab ssh b o ≡ (b, false))
        ⊎ All (GaveProject gitlab b.service_token) (covered_project_ids b.keys)
  reconciled-GaveProject none = inl refl
  reconciled-GaveProject (some ix) = rebuilt-GaveProject ix (covered_project_ids b.keys)

-- A refresh leaves the broker and its index as they were, or it had all that it rests on: for each
-- project of the key store, GitLab either answered the service token that the project is not to be seen
-- (404 or 403), or gave the project's members and the keys of every one of them.
pub reconcile_identity_index-GaveProject :
    (gitlab : GitLab) (ssh : Ssh) (b : Broker)
    → (reconcile_identity_index gitlab ssh b ≡ (b, false))
      ⊎ All (GaveProject gitlab b.service_token) (covered_project_ids b.keys)
unfolding reconcile_identity_index
reconcile_identity_index-GaveProject gitlab ssh b = reconciled-GaveProject gitlab ssh b (enabled b)
