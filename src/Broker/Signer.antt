-- ===== src/Broker/Signer.antt =====
-- ssh_auth.go and signer_endpoint.go: which user a fingerprint stands for, and the proof of a
-- challenge.
pub mod Laws
use gitseal.Prelude.{
  ℕ, ◌≡◌, Bool, true, false, not, ◌||◌, ◌&&◌, Option, none, some, List, Text, ℤ, pos, text_eq,
  ltb_ℤ, is_empty, eqb, if◌then◌else◌, Result, ok, err, ◌>>=◌, ◌>>◌, refuse_if, require,
}
use gitseal.Broker.State.{ChallengeStore, IndexEntry, Registry, Broker}
use gitseal.Broker.World.{Reply, unreachable, answered, GitLab, Ssh}
use gitseal.Broker.Challenge.{consume, first_success, Answer, answer}
use gitseal.Broker.Registry.{user, user_key}
use gitseal.Broker.Identity.{lookup_index}
use gitseal.Broker.Reconcile.{on_miss_refresh}

abbrev paired : Option ℤ → Option Text → Option IndexEntry
paired (some uid) (some line) = some (record { user_id = uid; pub_key = line })
paired _ _ = none

abbrev or_registered : Option IndexEntry → Option IndexEntry → Option IndexEntry
or_registered (some e) registered = some e
or_registered none registered = registered

-- resolveSigner: the index first, then the registry's two maps.
unfoldable pub resolve_signer : Broker → Text → Option IndexEntry
resolve_signer b fp =
    or_registered (lookup_index fp b.identity)
      (paired (user b.registry fp) (user_key b.registry fp))

pub data SshError : Type 0 where
  ssh_disabled nonce_refused unknown_fingerprint bad_key_line fingerprint_mismatch : SshError
  bad_signature : SshError

-- The world that one request meets: what is called, the clock's readings, and what each peer answers
-- when it is asked to consume a nonce.
pub record World : Type 0 where
  pub gitlab : GitLab
  pub ssh : Ssh
  pub refresh_at : ℕ
  pub consume_at : ℕ
  pub peer_replies : Text → List (Option ℕ)

-- consumeViaPeers: nothing is sent with no register token.
abbrev pub consume_via_peers : World → Broker → Text → Bool
consume_via_peers w b nonce =
    not (is_empty b.register_token) && first_success (w.peer_replies nonce)

abbrev with_store : Broker → ChallengeStore × Bool → Bool → Broker × Bool
with_store b (c, done) elsewhere = (record b { challenges = some c }, done || elsewhere)

abbrev consume_here : World → Broker → Text → Option ChallengeStore → Broker × Bool
consume_here w b nonce none = (b, consume_via_peers w b nonce)
consume_here w b nonce (some c) =
    with_store b (consume w.consume_at nonce c) (consume_via_peers w b nonce)

-- consumeNonce: here first, then at the peers.
unfoldable pub consume_nonce : World → Broker → Text → Broker × Bool
consume_nonce w b nonce = consume_here w b nonce b.challenges

-- What follows the nonce in authViaSSH: a resolved signer whose key has the presented fingerprint
-- and verifies the signature over the nonce.
unfoldable pub verify_signer : Ssh → Text → Text → Text → Option IndexEntry → Result SshError ℤ
verify_signer ssh fp nonce sig none = err unknown_fingerprint
verify_signer ssh fp nonce sig (some e) = do
  key ← require (ssh.parse_authorized_key e.pub_key) bad_key_line
  refuse_if (not (text_eq (ssh.fingerprint key) fp)) fingerprint_mismatch
  refuse_if (not (ssh.verify_sig key nonce sig)) bad_signature
  ok e.user_id

abbrev prove : World → Text → Text → Text → Broker × Bool → Broker × Result SshError ℤ
prove w fp nonce sig (b, false) = (b, err nonce_refused)
prove w fp nonce sig (b, true) = (b, verify_signer w.ssh fp nonce sig (resolve_signer b fp))

-- the refresh on a miss, before the nonce is spent
abbrev refresh_on_miss : World → Broker → Option IndexEntry → Broker
refresh_on_miss w b (some e) = b
refresh_on_miss w b none = on_miss_refresh w.gitlab w.ssh w.refresh_at b

abbrev challenged :
    World → Text → Text → Text → Broker → Option ChallengeStore → Broker × Result SshError ℤ
challenged w fp nonce sig b none = (b, err ssh_disabled)
challenged w fp nonce sig b (some _) =
    prove w fp nonce sig (consume_nonce w (refresh_on_miss w b (resolve_signer b fp)) nonce)

-- authViaSSH
unfoldable pub auth_via_ssh : World → Text → Text → Text → Broker → Broker × Result SshError ℤ
unfolding consume_nonce verify_signer resolve_signer
auth_via_ssh w fp nonce sig b = challenged w fp nonce sig b b.challenges

pub data LevelError : Type 0 where
  level_transport level_body : LevelError
  level_status : ℕ → LevelError

abbrev level_body_of : Option ℤ → Result LevelError ℤ
level_body_of none = err level_body
level_body_of (some level) = ok level

-- callerLevel: 404 is level 0.
unfoldable pub caller_level : Reply ℤ → Result LevelError ℤ
caller_level unreachable = err level_transport
caller_level (answered code body) =
    if eqb code 404
    then ok (pos 0)
    else if not (eqb code 200)
    then err (level_status code)
    else level_body_of body

-- signerResolveResponse; `none` is registered:false.
pub record SignerView : Type 0 where
  pub pub_key : Text
  pub user_id : ℤ
  pub live_level : ℤ

abbrev level_or_zero : Result LevelError ℤ → ℤ
level_or_zero (ok level) = level
level_or_zero (err e) = pos 0

abbrev view_of : GitLab → Text → ℤ → Option IndexEntry → Option SignerView
view_of gitlab token project_id none = none
view_of gitlab token project_id (some e) = some (record {
  pub_key = e.pub_key;
  user_id = e.user_id;
  live_level =
      if is_empty token || not (ltb_ℤ (pos 0) project_id)
      then pos 0
      else level_or_zero (caller_level (gitlab.member token project_id e.user_id));
})

abbrev no_source : Broker → Bool
no_source b =
    (elim b.registry [ none ↦ true | some _ ↦ false ])
    && (elim b.identity [ none ↦ true | some _ ↦ false ])

-- HandleSignerResolve; a project id that is absent or does not parse is 0 here.
unfoldable pub handle_signer_resolve : GitLab → Text → ℤ → Broker → Answer × Option SignerView
unfolding resolve_signer caller_level
handle_signer_resolve gitlab fp project_id b =
    if no_source b
    then (answer 501, none)
    else if is_empty fp
    then (answer 400, none)
    else (answer 200, view_of gitlab b.service_token project_id (resolve_signer b fp))
