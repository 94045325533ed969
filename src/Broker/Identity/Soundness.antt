-- ===== src/Broker/Identity/Soundness.antt =====
-- identity_index.go: every entry of a built index goes back to a member and one of its keys.
use gitseal.Prelude.{
  ◌≡◌, refl, Bool, true, false, Option, none, some, List, [], ◌∷◌, Text, ℤ, text_key, text_eq_iff,
  eqb_ℤ, any, if◌then◌else◌, Result, ok, err, ◌>>=◌, >>=-eq-ok, ok-inj, arith, Memᴰ, text_eq, sym,
  ◌∙◌, ap,
}
use gitseal.Prelude.Dict.{Dict, lookup, lookup-insert, lookup-nil}
use gitseal.Broker.State.{IndexEntry}
use gitseal.Broker.World.{Ssh}
use gitseal.Broker.Identity.{
  FetchError, transport, bad_body, not_visible, bad_status, Fetcher, Build, fingerprint_of_line,
  add_key, add_lines, add_user, add_users, add_members, add_projects, build_index,
}

-- The user belongs to one of the projects, and the line is one of the user's keys at this fetch, with
-- the fingerprint.
pub record Justified (ssh : Ssh) (f : Fetcher) (Q : ℤ → Type 0) (fp : Text) (e : IndexEntry)
    : Type 0 where
  pub lines : List Text
  pub fetched : f.keys e.user_id ≡ ok lines
  pub listed : Memᴰ e.pub_key lines
  pub fingerprint : fingerprint_of_line ssh e.pub_key ≡ some fp
  pub member : Q e.user_id

abbrev pub MemberOf : Fetcher → List ℤ → ℤ → Type 0
MemberOf f pids uid =
    (pid : ℤ) × Memᴰ pid pids × ((uids : List ℤ) × (f.members pid ≡ ok uids) × Memᴰ uid uids)

module _ (ssh : Ssh) (f : Fetcher) (Q : ℤ → Type 0) where
  abbrev AllJustified : Dict Text IndexEntry → Type 0
  AllJustified out = (fp : Text) (e : IndexEntry) → lookup fp out ≡ some e → Justified ssh f Q fp e

  added :
      (uid : ℤ) (line k fp : Text) (lines : List Text) (out : Dict Text IndexEntry) (e : IndexEntry)
      → f.keys uid ≡ ok lines
      → Memᴰ line lines
      → fingerprint_of_line ssh line ≡ some k
      → Q uid
      → AllJustified out
      → (b : Bool) → text_eq k fp ≡ b
      → (if b then some (record { user_id = uid; pub_key = line }) else lookup fp out) ≡ some e
      → Justified ssh f Q fp e
  added uid line k fp lines out e got m h q all true same found =
      let user : e.user_id ≡ uid = ground arith in
      let key : e.pub_key ≡ line = ground arith in
      record {
        lines = lines;
        fetched = rw (user) got;
        listed = rw (key) m;
        fingerprint = rw (key, h) (ap some ((text_eq_iff k fp).0 same));
        member = rw (user) q;
      }
  added uid line k fp lines out e got m h q all false same found = all fp e found

  add_key-AllJustified :
      (uid : ℤ) (line : Text) (lines : List Text) (o : Option Text) (out : Dict Text IndexEntry)
      → f.keys uid ≡ ok lines
      → Memᴰ line lines
      → fingerprint_of_line ssh line ≡ o
      → Q uid
      → AllJustified out
      → AllJustified (add_key ssh uid line o out)
  add_key-AllJustified uid line lines none out got m h q all fp e found = all fp e found
  add_key-AllJustified uid line lines (some k) out got m h q all fp e found =
      added uid line k fp lines out e got m h q all (text_eq k fp) refl
        (sym (lookup-insert fp k (record { user_id = uid; pub_key = line }) out) ∙ found)

  add_lines-AllJustified :
      (uid : ℤ) (lines rest : List Text) (out : Dict Text IndexEntry)
      → f.keys uid ≡ ok lines
      → ((line : Text) → Memᴰ line rest → Memᴰ line lines)
      → Q uid
      → AllJustified out
      → AllJustified (add_lines ssh uid rest out)
  unfolding add_lines
  add_lines-AllJustified uid lines [] out got sub q all = all
  add_lines-AllJustified uid lines (line ∷ rest) out got sub q all =
      add_lines-AllJustified uid lines rest _ got (λ line' m. sub line' (Memᴰ.tail m)) q
        (add_key-AllJustified uid line lines (fingerprint_of_line ssh line) out got
          (sub line (Memᴰ.head refl)) refl q all)

  fetched_user :
      (uid : ℤ) (b b' : Build) (seen : Bool)
      → Q uid
      → AllJustified b.out
      → (if seen
          then ok b
          else (f.keys uid >>= λ lines.
              ok (record { out = add_lines ssh uid lines b.out; seen = uid ∷ b.seen })))
        ≡ ok b'
      → AllJustified b'.out
  fetched_user uid b b' true q all h = rw (sym (ok-inj h)) all
  fetched_user uid b b' false q all h =
      let (lines, got, rest) = >>=-eq-ok (f.keys uid) _ h in
      rw (sym (ok-inj rest)) (add_lines-AllJustified uid lines lines b.out got (λ line m. m) q all)

  add_user-AllJustified :
      (uid : ℤ) (b b' : Build)
      → Q uid
      → AllJustified b.out
      → add_user ssh f uid b ≡ ok b'
      → AllJustified b'.out
  unfolding add_user
  add_user-AllJustified uid b b' q all h = fetched_user uid b b' (any (eqb_ℤ uid) b.seen) q all h

  add_users-AllJustified :
      (uids : List ℤ) (b b' : Build)
      → ((uid : ℤ) → Memᴰ uid uids → Q uid)
      → AllJustified b.out
      → add_users ssh f uids b ≡ ok b'
      → AllJustified b'.out
  unfolding add_users
  add_users-AllJustified [] b b' q all h = rw (sym (ok-inj h)) all
  add_users-AllJustified (uid ∷ uids) b b' q all h =
      let (b₁, first, rest) = >>=-eq-ok (add_user ssh f uid b) _ h in
      add_users-AllJustified uids b₁ b' (λ u m. q u (Memᴰ.tail m))
        (add_user-AllJustified uid b b₁ (q uid (Memᴰ.head refl)) all first) rest

module _ (ssh : Ssh) (f : Fetcher) (pids : List ℤ) where
  add_members-AllJustified :
      (pid : ℤ) (m : Result FetchError (List ℤ)) (b b' : Build)
      → Memᴰ pid pids
      → f.members pid ≡ m
      → AllJustified ssh f (MemberOf f pids) b.out
      → add_members ssh f m b ≡ ok b'
      → AllJustified ssh f (MemberOf f pids) b'.out
  add_members-AllJustified pid (ok uids) b b' p got all h =
      add_users-AllJustified ssh f (MemberOf f pids) uids b b' (λ uid u. (pid, p, (uids, got, u)))
        all h
  add_members-AllJustified pid (err not_visible) b b' p got all h = rw (sym (ok-inj h)) all
  add_members-AllJustified pid (err transport) b b' p got all h = cc
  add_members-AllJustified pid (err bad_body) b b' p got all h = cc
  add_members-AllJustified pid (err (bad_status n)) b b' p got all h = cc

  add_projects-AllJustified :
      (rest : List ℤ) (b b' : Build)
      → ((pid : ℤ) → Memᴰ pid rest → Memᴰ pid pids)
      → AllJustified ssh f (MemberOf f pids) b.out
      → add_projects ssh f rest b ≡ ok b'
      → AllJustified ssh f (MemberOf f pids) b'.out
  unfolding add_projects
  add_projects-AllJustified [] b b' sub all h = rw (sym (ok-inj h)) all
  add_projects-AllJustified (pid ∷ rest) b b' sub all h =
      let (b₁, first, later) = >>=-eq-ok (add_members ssh f (f.members pid) b) _ h in
      add_projects-AllJustified rest b₁ b' (λ p m. sub p (Memᴰ.tail m))
        (add_members-AllJustified pid (f.members pid) b b₁ (sub pid (Memᴰ.head refl)) refl all
          first)
        later

  nothing-Justified : AllJustified ssh f (MemberOf f pids) []
  nothing-Justified fp e h = cc (lookup-nil fp)

-- Where the build succeeds, each entry of the index is justified by what was fetched: its user is a
-- member of one of the projects, its line one of the user's keys, and its fingerprint the line's.
pub build_index-Justified :
    (ssh : Ssh) (pids : List ℤ) (f : Fetcher) (m : Dict Text IndexEntry) (fp : Text)
    (e : IndexEntry)
    → build_index ssh pids f ≡ ok m
    → lookup fp m ≡ some e
    → Justified ssh f (MemberOf f pids) fp e
unfolding build_index
build_index-Justified ssh pids f m fp e h found =
    let (b, built, last) =
      >>=-eq-ok (add_projects ssh f pids (record { out = []; seen = [] })) _ h in
    add_projects-AllJustified ssh f pids pids (record { out = []; seen = [] }) b (λ pid p. p)
      (λ k entry held. nothing-Justified ssh f pids k entry held) built fp e
      (rw (ok-inj last) found)
