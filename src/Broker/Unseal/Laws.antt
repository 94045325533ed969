-- ===== src/Broker/Unseal/Laws.antt =====
-- broker.go: what an answer of HandleUnseal says about GitLab, the keystore and the file.
use gitseal.Prelude.{
  ◌≡◌, refl, false, none, some, Text, ℤ, ◌≤ℤ◌, ltb_ℤ, ltb_ℤ_false, Result, ok, err, >>=-eq-ok,
  refuse_if-eq-ok, arith,
}
use gitseal.Age.{Age}
use gitseal.Base64
use gitseal.Crypto.Headers.{default_min_access_level}
use gitseal.Broker.State.{Broker}
use gitseal.Broker.World.{Reply, unreachable, answered, GitLab}
use gitseal.Broker.Signer.{World, caller_level}
use gitseal.Broker.Unseal.{
  UnsealRequest, Denial, Target, Caller, read_request, authenticate, level_denied, select_identity,
  open_target, authorize_and_open, handle_unseal, authorized, authenticated,
}

-- The file was opened by the identity that serves the target, the live level of the caller reaches
-- Developer and what the file requires, and the answer is the plaintext.
pub record Opened (age : Age) (gitlab : GitLab) (b : Broker) (t : Target) (c : Caller) (out : Text)
    : Type 0 where
  pub level : ℤ
  pub required : ℤ
  pub identity : Text
  pub plaintext : Text
  pub member : gitlab.member c.lookup_token t.project_id c.user_id ≡ answered 200 (some level)
  pub developer : default_min_access_level ≤ℤ level
  pub enough : required ≤ℤ level
  pub selected : select_identity b t ≡ ok identity
  pub decrypted : open_target age t identity ≡ ok (plaintext, required)
  pub answer : out ≡ Base64.encode plaintext

caller_level_live :
    (r : Reply ℤ) (level : ℤ)
    → level_denied (caller_level r) ≡ ok level
    → ltb_ℤ level default_min_access_level ≡ false
    → r ≡ answered 200 (some level)
unfolding caller_level
caller_level_live unreachable level h low = cc
caller_level_live (answered code none) level h low = ground arith
caller_level_live (answered code (some l)) level h low = ground arith

authorize_and_open-Opened :
    (age : Age) (g : GitLab) (b : Broker) (t : Target) (c : Caller) (out : Text)
    → authorize_and_open age g b t c ≡ ok out
    → Opened age g b t c out
unfolding authorize_and_open
authorize_and_open-Opened age g b t c out h =
    let (level, live, h₁) =
      >>=-eq-ok (level_denied (caller_level (g.member c.lookup_token t.project_id c.user_id))) _
        h in
    let (low, h₂) = refuse_if-eq-ok (ltb_ℤ level default_min_access_level) _ _ _ h₁ in
    let (identity, chosen, h₃) = >>=-eq-ok (select_identity b t) _ h₂ in
    let ((plaintext, required), done, h₄) = >>=-eq-ok (open_target age t identity) _ h₃ in
    let (enough, h₅) = refuse_if-eq-ok (ltb_ℤ level required) _ _ _ h₄ in
    record {
      level = level;
      required = required;
      identity = identity;
      plaintext = plaintext;
      member = caller_level_live _ level live low;
      developer = ltb_ℤ_false level default_min_access_level low;
      enough = ltb_ℤ_false level required enough;
      selected = chosen;
      decrypted = done;
      answer = cc;
    }

authorized-ok :
    (age : Age) (w : World) (t : Target) (p : Broker × Result Denial Caller) (out : Text)
    → (authorized age w t p).1 ≡ ok out
    → (b : Broker) × (c : Caller) × (p ≡ (b, ok c))
      × (authorize_and_open age w.gitlab b t c ≡ ok out)
authorized-ok age w t (b, ok c) out h = (b, c, refl, h)
authorized-ok age w t (b, err e) out h = cc

authenticated-ok :
    (age : Age) (w : World) (b : Broker) (r : UnsealRequest) (m : Result Denial Target) (out : Text)
    → (authenticated age w b r m).1 ≡ ok out
    → (t : Target) × (m ≡ ok t) × ((authorized age w t (authenticate w b r)).1 ≡ ok out)
authenticated-ok age w b r (ok t) out h = (t, refl, h)
authenticated-ok age w b r (err e) out h = cc

-- An answer of 200 means: the request was read to a target, the caller was authenticated, and the
-- broker that this left opened the target for that caller, in the sense of Opened.
pub handle_unseal-Opened :
    (age : Age) (w : World) (b : Broker) (r : UnsealRequest) (out : Text)
    → (handle_unseal age w b r).1 ≡ ok out
    → (t : Target) × (b' : Broker) × (c : Caller) × (read_request age b r ≡ ok t)
      × (authenticate w b r ≡ (b', ok c))
      × Opened age w.gitlab b' t c out
unfolding handle_unseal
handle_unseal-Opened age w b r out h =
    let (t, read, h₁) = authenticated-ok age w b r (read_request age b r) out h in
    let (b', c, auth, h₂) = authorized-ok age w t (authenticate w b r) out h₁ in
    (t, b', c, read, auth, authorize_and_open-Opened age w.gitlab b' t c out h₂)
