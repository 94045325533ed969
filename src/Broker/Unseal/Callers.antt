-- ===== src/Broker/Unseal/Callers.antt =====
-- broker.go, parts B and C: whom HandleUnseal takes for an authenticated caller.
use gitseal.Prelude.{
  ◌≡◌, true, false, none, some, Text, text, ℤ, text_eq_iff, is_empty, Result, ok, err, >>=-eq-ok,
  refuse_if-eq-ok, arith,
}
use gitseal.Broker.World.{Reply, unreachable, answered, TokenSelf, Account, GitLab}
use gitseal.Broker.Signer.{SshError}
use gitseal.Broker.Unseal.{
  Caller, check_user_active, ssh_caller, check_token, check_user, pat_caller, or_denied,
}

-- What GitLab answers at this moment: an active human with the id.
abbrev pub LiveHuman : Reply Account → Account → Type 0
LiveHuman r u = (r ≡ answered 200 (some u)) × (u.state ≡ text "active") × (u.bot ≡ false)

check_user_active-ok :
    (r : Reply Account) → or_denied (check_user_active r) ≡ ok tt → (u : Account) × LiveHuman r u
unfolding check_user_active
check_user_active-ok unreachable h = cc
check_user_active-ok (answered code none) h = ground arith
check_user_active-ok (answered code (some u)) h = (
  u,
  (
    ground (arith, text_eq_iff u.state (text "active")),
    ground (arith, text_eq_iff u.state (text "active")),
    ground (arith, text_eq_iff u.state (text "active")),
  ),
)

abbrev pub LiveToken : Reply TokenSelf → Type 0
LiveToken r =
    (self : TokenSelf) × (r ≡ answered 200 (some self))
    × (self.active ≡ true)
    × (self.revoked ≡ false)

check_token-ok : (r : Reply TokenSelf) → check_token r ≡ ok tt → LiveToken r
unfolding check_token
check_token-ok unreachable h = cc
check_token-ok (answered code none) h = ground arith
check_token-ok (answered code (some self)) h = (self, ground arith, ground arith, ground arith)

check_user-ok :
    (r : Reply Account) (uid : ℤ)
    → check_user r ≡ ok uid
    → (u : Account) × (u.id ≡ uid) × LiveHuman r u
unfolding check_user
check_user-ok unreachable uid h = cc
check_user-ok (answered code none) uid h = ground arith
check_user-ok (answered code (some u)) uid h = (
  u,
  ground (arith, text_eq_iff u.state (text "active")),
  (
    ground (arith, text_eq_iff u.state (text "active")),
    ground (arith, text_eq_iff u.state (text "active")),
    ground (arith, text_eq_iff u.state (text "active")),
  ),
)

-- A caller that the token branch lets through: the token is present, live and not revoked, its user
-- is an active human, and the member is looked up as that user with that token.
pub pat_caller-ok :
    (g : GitLab) (token : Text) (c : Caller)
    → pat_caller g token ≡ ok c
    → (is_empty token ≡ false)
      × (c.lookup_token ≡ token)
      × LiveToken (g.token_self token)
      × ((u : Account) × (u.id ≡ c.user_id) × LiveHuman (g.current_user token) u)
unfolding pat_caller
pat_caller-ok g token c h =
    let (present, h₁) = refuse_if-eq-ok (is_empty token) _ _ _ h in
    let (_, live, h₂) = >>=-eq-ok (check_token (g.token_self token)) _ h₁ in
    let (uid, human, h₃) = >>=-eq-ok (check_user (g.current_user token)) _ h₂ in
    let (u, same, who) = check_user-ok (g.current_user token) uid human in
    (present, cc, check_token-ok _ live, (u, cc, who))

-- A caller that the SSH branch lets through: the challenge was proved for that user, and GitLab
-- answers the service token that the user is an active human.
pub ssh_caller-ok :
    (g : GitLab) (token : Text) (proof : Result SshError ℤ) (c : Caller)
    → ssh_caller g token proof ≡ ok c
    → (proof ≡ ok c.user_id)
      × (is_empty token ≡ false)
      × (c.lookup_token ≡ token)
      × ((u : Account) × LiveHuman (g.user token c.user_id) u)
unfolding ssh_caller
ssh_caller-ok g token (err e) c h = cc
ssh_caller-ok g token (ok uid) c h =
    let (present, h₁) = refuse_if-eq-ok (is_empty token) _ _ _ h in
    let (_, live, h₂) = >>=-eq-ok (or_denied (check_user_active (g.user token uid))) _ h₁ in
    let (u, who) = check_user_active-ok (g.user token uid) live in
    (cc, present, cc, (u, ground arith))
