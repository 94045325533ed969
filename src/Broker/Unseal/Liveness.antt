-- ===== src/Broker/Unseal/Liveness.antt =====
-- broker.go: requests that HandleUnseal answers.
use gitseal.Prelude.{
  ◌≡◌, refl, true, false, some, Text, text, ℤ, text_eq_refl, ltb_ℤ, is_empty, if◌then◌else◌, Result,
  ok, err, arith,
}
use gitseal.Age.{Age}
use gitseal.Base64
use gitseal.Crypto.Headers.{default_min_access_level}
use gitseal.Broker.State.{Broker}
use gitseal.Broker.World.{answered, TokenSelf, Account, GitLab}
use gitseal.Broker.Signer.{World, auth_via_ssh, caller_level}
use gitseal.Broker.Unseal.{
  UnsealRequest, Denial, Target, Caller, deny, lacks_developer, needs_level, read_request,
  check_user_active, ssh_caller, check_token, check_user, pat_caller, authenticate, select_identity,
  open_target, authorize_and_open, handle_unseal,
}
use gitseal.Broker.Unseal.Callers.{LiveHuman}

pat_caller-live :
    (g : GitLab) (token : Text) (self : TokenSelf) (u : Account)
    → is_empty token ≡ false
    → g.token_self token ≡ answered 200 (some self)
    → self.active ≡ true
    → self.revoked ≡ false
    → LiveHuman (g.current_user token) u
    → pat_caller g token ≡ ok (record { user_id = u.id; lookup_token = token })
unfolding pat_caller check_token check_user
pat_caller-live g token self u present live active kept (human, state, bot) =
    rw (present, live, human, active, kept, state, bot, text_eq_refl (text "active")) refl

ssh_caller-live :
    (g : GitLab) (token : Text) (uid : ℤ) (u : Account)
    → is_empty token ≡ false
    → LiveHuman (g.user token uid) u
    → ssh_caller g token (ok uid) ≡ ok (record { user_id = uid; lookup_token = token })
unfolding ssh_caller check_user_active
ssh_caller-live g token uid u present (human, state, bot) =
    rw (present, human, state, bot, text_eq_refl (text "active")) refl

-- The answer once the caller is known and the file opens: by the level alone.
unfoldable pub by_level : ℤ → ℤ → Text → Result Denial Text
by_level level required plaintext =
    if ltb_ℤ level default_min_access_level
    then err (deny 403 lacks_developer)
    else if ltb_ℤ level required
    then err (deny 403 (needs_level required level))
    else ok (Base64.encode plaintext)

-- GitLab answers a level for the member, the target has an identity, and that opens the file.
pub record Openable (age : Age) (g : GitLab) (b : Broker) (t : Target) (c : Caller)
    (level required : ℤ) (plaintext : Text) : Type 0 where
  pub identity : Text
  pub member : g.member c.lookup_token t.project_id c.user_id ≡ answered 200 (some level)
  pub chosen : select_identity b t ≡ ok identity
  pub opens : open_target age t identity ≡ ok (plaintext, required)

authorize_and_open-by_level :
    (age : Age) (g : GitLab) (b : Broker) (t : Target) (c : Caller) (level required : ℤ)
    (plaintext : Text)
    → Openable age g b t c level required plaintext
    → authorize_and_open age g b t c ≡ by_level level required plaintext
unfolding authorize_and_open caller_level by_level
authorize_and_open-by_level age g b t c level required plaintext o =
    rw (o.member, o.chosen, o.opens) (ground arith)

-- A request by token is answered by the caller's level: with a live token of an active human, for a
-- target whose file opens, the answer is the plaintext if the level is at least Developer and at least
-- what the file requires, and a denial by 403 if not; the broker does not change.
pub handle_unseal-pat :
    (age : Age) (w : World) (b : Broker) (r : UnsealRequest) (t : Target) (self : TokenSelf)
    (u : Account) (level required : ℤ) (plaintext : Text)
    → read_request age b r ≡ ok t
    → is_empty r.fingerprint ≡ true
    → is_empty r.gitlab_token ≡ false
    → w.gitlab.token_self r.gitlab_token ≡ answered 200 (some self)
    → self.active ≡ true
    → self.revoked ≡ false
    → LiveHuman (w.gitlab.current_user r.gitlab_token) u
    → Openable age w.gitlab b t
        (record { user_id = u.id; lookup_token = r.gitlab_token })
        level
        required
        plaintext
    → handle_unseal age w b r ≡ (b, by_level level required plaintext)
unfolding handle_unseal authenticate
handle_unseal-pat age w b r t self u level required plaintext read no_fp present live active kept
      human o =
    rw
      (
        read,
        no_fp,
        pat_caller-live w.gitlab r.gitlab_token self u present live active kept human,
        authorize_and_open-by_level age w.gitlab b t _ level required plaintext o,
      )
      refl

-- The same of a request by SSH key, once the challenge is proved: the account is looked up, and so is
-- the member, by the service token.
pub handle_unseal-ssh :
    (age : Age) (w : World) (b b' : Broker) (r : UnsealRequest) (t : Target) (uid : ℤ) (u : Account)
    (level required : ℤ) (plaintext : Text)
    → read_request age b r ≡ ok t
    → is_empty r.fingerprint ≡ false
    → auth_via_ssh w r.fingerprint r.nonce r.signature b ≡ (b', ok uid)
    → is_empty b'.service_token ≡ false
    → LiveHuman (w.gitlab.user b'.service_token uid) u
    → Openable age w.gitlab b' t
        (record { user_id = uid; lookup_token = b'.service_token })
        level
        required
        plaintext
    → handle_unseal age w b r ≡ (b', by_level level required plaintext)
unfolding handle_unseal authenticate
handle_unseal-ssh age w b b' r t uid u level required plaintext read fp proved present human o =
    rw
      (
        read,
        fp,
        proved,
        ssh_caller-live w.gitlab b'.service_token uid u present human,
        authorize_and_open-by_level age w.gitlab b' t _ level required plaintext o,
      )
      refl
