-- ===== src/Broker/Unseal.antt =====
-- broker.go: HandleUnseal, the fail-closed state machine, in the three parts in which it reads a
-- request, authenticates the caller, and authorises and opens.
pub mod Laws
pub mod Callers
pub mod Liveness
use gitseal.Prelude.{
  ℕ, ◌≡◌, Bool, true, false, not, ◌||◌, ◌&&◌, Option, none, some, List, Text, text, ℤ, pos, text_eq,
  leb_ℤ, ltb_ℤ, [], is_empty, eqb, if◌then◌else◌, Result, ok, err, ◌>>=◌, ◌>>◌, refuse_if, require,
}
use gitseal.Age.{Age}
use gitseal.Base64
use gitseal.Crypto.Headers.{default_min_access_level}
use gitseal.Crypto.Open.{unseal_verified, unseal_verified_by_key}
use gitseal.Crypto.Errors.{Error}
use gitseal.Broker.State.{Broker}
use gitseal.Broker.World.{Reply, unreachable, answered, TokenSelf, Account, GitLab}
use gitseal.Broker.Keys.{key_for, key_for_pubkey}
use gitseal.Broker.Signer.{SshError, World, auth_via_ssh, LevelError, caller_level}

-- unsealRequest, as its body decodes
pub record UnsealBody : Type 0 where
  pub project_id : ℤ
  pub recipient : Text
  pub ciphertext : Text

pub record UnsealRequest : Type 0 where
  pub is_post : Bool
  pub cf_assertion : Text
  pub body : Option UnsealBody
  -- X-Seald-Fingerprint, X-Seald-Nonce, X-Seald-Signature, X-GitLab-Token
  pub fingerprint : Text
  pub nonce : Text
  pub signature : Text
  pub gitlab_token : Text

pub data AccountError : Type 0 where
  state_unreachable state_body not_active is_bot : AccountError
  state_status : ℕ → AccountError

pub data Reason : Type 0 where
  missing_cf_assertion method_not_allowed invalid_body unknown_recipient missing_project : Reason
  invalid_ciphertext missing_auth no_service_token : Reason
  ssh_failed : SshError → Reason
  account_failed : AccountError → Reason
  token_unreachable token_not_active token_revoked : Reason
  user_unreachable user_unresolved user_not_human : Reason
  authz_unreachable lacks_developer no_key decrypt_refused : Reason
  needs_level : ℤ → ℤ → Reason

-- deny: the status and the reason
pub record Denial : Type 0 where
  pub status : ℕ
  pub reason : Reason

abbrev pub deny : ℕ → Reason → Denial
deny status reason = record { status = status; reason = reason }

-- What the first part hands on: the project whose membership decides, the public key of a v4 request
-- ("" for a numeric one) with its identity, and the decoded ciphertext.
pub record Target : Type 0 where
  pub project_id : ℤ
  pub recipient : Text
  pub v4_identity : Text
  pub ciphertext : Text

-- The caller's user id, and the token for the lookup of the member.
pub record Caller : Type 0 where
  pub user_id : ℤ
  pub lookup_token : Text

abbrev resolved_v4 : UnsealBody → Option (Text × ℤ) → Result Denial (Text × ℤ)
resolved_v4 q none = err (deny 404 unknown_recipient)
resolved_v4 q (some found) = ok found

-- the identity ("" if numeric) and the project id
unfoldable pub resolve_project : Age → Broker → UnsealBody → Result Denial (Text × ℤ)
resolve_project age b q =
    if is_empty q.recipient
    then ok ([], q.project_id)
    else resolved_v4 q (key_for_pubkey age b.keys q.recipient)

unfoldable pub read_request : Age → Broker → UnsealRequest → Result Denial Target
unfolding resolve_project
read_request age b r = do
  refuse_if (b.require_cf_access && is_empty r.cf_assertion) (deny 403 missing_cf_assertion)
  refuse_if (not r.is_post) (deny 405 method_not_allowed)
  q ← require r.body (deny 400 invalid_body)
  (identity, project_id) ← resolve_project age b q
  refuse_if (leb_ℤ project_id (pos 0)) (deny 400 missing_project)
  ct ← require (Base64.decode q.ciphertext) (deny 400 invalid_ciphertext)
  ok (record {
    project_id = project_id;
    recipient = q.recipient;
    v4_identity = identity;
    ciphertext = ct;
  })

-- checkUserActive
abbrev active_body : Option Account → Result AccountError (Unit {0})
active_body none = err state_body
active_body (some u) =
    if not (text_eq u.state (text "active"))
    then err not_active
    else if u.bot
    then err is_bot
    else ok tt

unfoldable pub check_user_active : Reply Account → Result AccountError (Unit {0})
check_user_active unreachable = err state_unreachable
check_user_active (answered code body) =
    if not (eqb code 200) then err (state_status code) else active_body body

abbrev or_denied : Result AccountError (Unit {0}) → Result Denial (Unit {0})
or_denied (ok _) = ok tt
or_denied (err e) = err (deny 401 (account_failed e))

-- The SSH branch once the challenge is proved: the account is checked live, by the service token.
unfoldable pub ssh_caller : GitLab → Text → Result SshError ℤ → Result Denial Caller
unfolding check_user_active
ssh_caller gitlab service_token (err e) = err (deny 401 (ssh_failed e))
ssh_caller gitlab service_token (ok uid) = do
  refuse_if (is_empty service_token) (deny 503 no_service_token)
  or_denied (check_user_active (gitlab.user service_token uid))
  ok (record { user_id = uid; lookup_token = service_token })

abbrev live_token : Option TokenSelf → Bool
live_token none = false
live_token (some self) = self.active && not self.revoked

abbrev active_human : Account → Bool
active_human u = text_eq u.state (text "active") && not u.bot

unfoldable pub check_token : Reply TokenSelf → Result Denial (Unit {0})
check_token unreachable = err (deny 503 token_unreachable)
check_token (answered code body) =
    if not (eqb code 200)
    then err (deny 401 token_not_active)
    else if not (live_token body)
    then err (deny 401 token_revoked)
    else ok tt

abbrev human_body : Option Account → Result Denial ℤ
human_body none = err (deny 401 user_not_human)
human_body (some u) = if active_human u then ok u.id else err (deny 401 user_not_human)

unfoldable pub check_user : Reply Account → Result Denial ℤ
check_user unreachable = err (deny 503 user_unreachable)
check_user (answered code body) =
    if not (eqb code 200) then err (deny 401 user_unresolved) else human_body body

-- The PAT branch: the token is live, and its user is an active human.
unfoldable pub pat_caller : GitLab → Text → Result Denial Caller
unfolding check_token check_user
pat_caller gitlab token = do
  refuse_if (is_empty token) (deny 400 missing_auth)
  check_token (gitlab.token_self token)
  uid ← check_user (gitlab.current_user token)
  ok (record { user_id = uid; lookup_token = token })

abbrev from_ssh : World → Broker × Result SshError ℤ → Broker × Result Denial Caller
from_ssh w (b, proof) = (b, ssh_caller w.gitlab b.service_token proof)

-- Parts B and C.
unfoldable pub authenticate : World → Broker → UnsealRequest → Broker × Result Denial Caller
unfolding ssh_caller pat_caller
authenticate w b r =
    if is_empty r.fingerprint
    then (b, pat_caller w.gitlab r.gitlab_token)
    else from_ssh w (auth_via_ssh w r.fingerprint r.nonce r.signature b)

abbrev level_denied : Result LevelError ℤ → Result Denial ℤ
level_denied (ok level) = ok level
level_denied (err e) = err (deny 503 authz_unreachable)

-- Part E: the project's own identity, unless the public key resolved it already.
unfoldable pub select_identity : Broker → Target → Result Denial Text
select_identity b t =
    if is_empty t.v4_identity
    then require (key_for b.keys t.project_id) (deny 404 no_key)
    else ok t.v4_identity

abbrev opened : Result Error (Text × ℤ) × Text → Result Denial (Text × ℤ)
opened (ok found, wiped) = ok found
opened (err e, wiped) = err (deny 400 decrypt_refused)

unfoldable pub open_target : Age → Target → Text → Result Denial (Text × ℤ)
open_target age t identity =
    if is_empty t.recipient
    then opened (unseal_verified age t.ciphertext identity t.project_id)
    else opened (unseal_verified_by_key age t.ciphertext identity t.recipient)

-- Parts D to G: the live level, the identity, the opening, and the level that the file requires.
unfoldable pub authorize_and_open : Age → GitLab → Broker → Target → Caller → Result Denial Text
unfolding select_identity open_target
authorize_and_open age gitlab b t c = do
  level ← level_denied (caller_level (gitlab.member c.lookup_token t.project_id c.user_id))
  refuse_if (ltb_ℤ level default_min_access_level) (deny 403 lacks_developer)
  identity ← select_identity b t
  (plaintext, required) ← open_target age t identity
  refuse_if (ltb_ℤ level required) (deny 403 (needs_level required level))
  ok (Base64.encode plaintext)

abbrev authorized :
    Age → World → Target → Broker × Result Denial Caller → Broker × Result Denial Text
authorized age w t (b, err e) = (b, err e)
authorized age w t (b, ok c) = (b, authorize_and_open age w.gitlab b t c)

abbrev authenticated :
    Age → World → Broker → UnsealRequest → Result Denial Target → Broker × Result Denial Text
authenticated age w b r (err e) = (b, err e)
authenticated age w b r (ok t) = authorized age w t (authenticate w b r)

-- HandleUnseal: the broker afterwards, and a denial or the plaintext in base64.
unfoldable pub handle_unseal : Age → World → Broker → UnsealRequest → Broker × Result Denial Text
unfolding read_request authenticate authorize_and_open
handle_unseal age w b r = authenticated age w b r (read_request age b r)
