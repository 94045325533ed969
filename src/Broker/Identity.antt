-- ===== src/Broker/Identity.antt =====
-- identity_index.go: the index from fingerprints to GitLab users, and how it is built.
pub mod Soundness
use gitseal.Prelude.{
  ℕ, ◌≡◌, Bool, true, false, ◌||◌, Option, none, some, List, [], ◌∷◌, Text, ℤ, text_key, eqb_ℤ, any,
  is_empty, length, if◌then◌else◌, Result, ok, err, ◌>>=◌,
}
use gitseal.Prelude.Dict.{Dict, lookup, insert}
use gitseal.Broker.State.{IndexEntry, IdentityIndex}
use gitseal.Broker.World.{Ssh}

-- IdentityIndex.Lookup
unfoldable pub lookup_index : Text → Option IdentityIndex → Option IndexEntry
lookup_index fp none = none
lookup_index fp (some ix) = lookup fp ix.entries

-- IdentityIndex.Swap, and whether it applied
unfoldable pub swap_index : Dict Text IndexEntry → IdentityIndex → IdentityIndex × Bool
swap_index [] ix = (ix, false)
swap_index (e ∷ m) ix = (record { entries = e ∷ m }, true)

-- The errors of the two fetchers; `not_visible` wraps ErrProjectNotVisible.
pub data FetchError : Type 0 where
  transport bad_body not_visible : FetchError
  bad_status : ℕ → FetchError

-- indexFetcher
pub record Fetcher : Type 0 where
  pub members : ℤ → Result FetchError (List ℤ)
  pub keys : ℤ → Result FetchError (List Text)

-- `out` and `seenUser`
pub record Build : Type 0 where
  pub out : Dict Text IndexEntry
  pub seen : List ℤ

module _ (ssh : Ssh) where
  -- client.FingerprintOfLine
  abbrev pub fingerprint_of_line : Text → Option Text
  fingerprint_of_line line = elim (ssh.parse_authorized_key line) [
    | none ↦ none
    | some pub_key ↦ some (ssh.fingerprint pub_key)
  ]

  abbrev pub add_key : ℤ → Text → Option Text → Dict Text IndexEntry → Dict Text IndexEntry
  add_key uid line none out = out
  add_key uid line (some fp) out = insert fp (record { user_id = uid; pub_key = line }) out

  -- the loop over a user's lines: an unparseable one is skipped
  unfoldable pub add_lines : ℤ → List Text → Dict Text IndexEntry → Dict Text IndexEntry
  add_lines uid [] out = out
  add_lines uid (line ∷ lines) out =
      add_lines uid lines (add_key uid line (fingerprint_of_line line) out)

  -- one user of a project's members
  unfoldable pub add_user : Fetcher → ℤ → Build → Result FetchError Build
  unfolding add_lines
  add_user f uid b =
      if any (eqb_ℤ uid) b.seen
      then ok b
      else (f.keys uid >>= λ lines.
          ok (record { out = add_lines uid lines b.out; seen = uid ∷ b.seen }))

  unfoldable pub add_users : Fetcher → List ℤ → Build → Result FetchError Build
  add_users f [] b = ok b
  add_users f (uid ∷ uids) b = add_user f uid b >>= add_users f uids

  -- one project: one that the token cannot see is skipped
  abbrev pub add_members : Fetcher → Result FetchError (List ℤ) → Build → Result FetchError Build
  add_members f (ok uids) b = add_users f uids b
  add_members f (err not_visible) b = ok b
  add_members f (err e) b = err e

  unfoldable pub add_projects : Fetcher → List ℤ → Build → Result FetchError Build
  unfolding add_users
  add_projects f [] b = ok b
  add_projects f (pid ∷ pids) b = add_members f (f.members pid) b >>= add_projects f pids

  -- buildIndex
  unfoldable pub build_index : List ℤ → Fetcher → Result FetchError (Dict Text IndexEntry)
  unfolding add_projects
  build_index pids f = add_projects f pids (record { out = []; seen = [] }) >>= λ b. ok b.out
