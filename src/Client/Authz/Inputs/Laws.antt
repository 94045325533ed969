-- ===== src/Client/Authz/Inputs/Laws.antt =====
-- authz_inputs.go: whatever flags are passed, the inputs are the runner's.
use gitseal.Prelude.{
  ◌≡◌, refl, Bool, true, false, ◌||◌, Option, none, some, Text, text, text_key, ℤ, eqb_ℤ, is_empty,
  ok, require-eq-ok, >>=-eq-ok, refuse_if-eq-ok, arith,
}
use gitseal.Prelude.Dict.{Dict, lookup}
use gitseal.Strconv.{parse_int}
use gitseal.Client.Authz.Inputs.{
  AuthzInputs, not_an_integer, require_int_env, crossed, crosscheck_flag, crosscheck,
  crosscheck_str, head_spoofed, resolve_authz_inputs,
}

-- The inputs are what the runner's variables say, and none of the texts is empty.
pub record FromRunner (getenv : Text → Text) (i : AuthzInputs) : Type 0 where
  pub host : (i.host ≡ getenv (text "CI_SERVER_HOST")) × (is_empty i.host ≡ false)
  pub project : parse_int (getenv (text "CI_PROJECT_ID")) ≡ some i.project_id
  pub user : parse_int (getenv (text "GITLAB_USER_ID")) ≡ some i.user_id
  pub base : (i.base ≡ getenv (text "CI_MERGE_REQUEST_DIFF_BASE_SHA")) × (is_empty i.base ≡ false)
  pub head : (i.head ≡ getenv (text "CI_COMMIT_SHA")) × (is_empty i.head ≡ false)
  pub token : (i.token ≡ getenv (text "SEALD_AUTHZ_TOKEN")) × (is_empty i.token ≡ false)

-- Nothing was passed for the flag, or a number that is the one wanted.
abbrev pub agrees : Option Text → ℤ → Bool
agrees none want = true
agrees (some v) want = is_empty v || (elim (parse_int v) [ none ↦ false | some n ↦ eqb_ℤ n want ])

require_int_env-ok :
    (getenv : Text → Text) (key : Text) (n : ℤ)
    → require_int_env getenv key ≡ ok n
    → parse_int (getenv key) ≡ some n
unfolding require_int_env
require_int_env-ok getenv key n h =
    let (_, h₁) = refuse_if-eq-ok (is_empty (getenv key)) _ _ _ h in
    require-eq-ok (parse_int (getenv key)) (not_an_integer key) n h₁

crossed-ok :
    (name : Text) (want : ℤ) (o : Option ℤ)
    → crossed name want o ≡ ok tt
    → (elim o [ none ↦ false | some n ↦ eqb_ℤ n want ]) ≡ true
crossed-ok name want none h = cc
crossed-ok name want (some got) h = ground arith

crosscheck_flag-ok :
    (name : Text) (want : ℤ) (o : Option Text)
    → crosscheck_flag name want o ≡ ok tt
    → agrees o want ≡ true
crosscheck_flag-ok name want none h = refl
crosscheck_flag-ok name want (some v) h = ground (arith, crossed-ok name want (parse_int v))

crosscheck-ok :
    (flags : Dict Text Text) (name : Text) (want : ℤ)
    → crosscheck flags name want ≡ ok tt
    → agrees (lookup name flags) want ≡ true
unfolding crosscheck
crosscheck-ok flags name want h = crosscheck_flag-ok name want (lookup name flags) h

-- Where the inputs resolve, each is what the runner's variable says, whatever the flags; and a project
-- or user id that was passed as a flag is the same number.
pub resolve_authz_inputs-FromRunner :
    (getenv : Text → Text) (flags : Dict Text Text) (i : AuthzInputs)
    → resolve_authz_inputs getenv flags ≡ ok i
    → FromRunner getenv i
      × (agrees (lookup (text "project-id") flags) i.project_id ≡ true)
      × (agrees (lookup (text "user-id") flags) i.user_id ≡ true)
unfolding resolve_authz_inputs
resolve_authz_inputs-FromRunner getenv flags i h =
    let (host, h₁) = refuse_if-eq-ok (is_empty (getenv (text "CI_SERVER_HOST"))) _ _ _ h in
    let (pid, project, h₂) = >>=-eq-ok (require_int_env getenv (text "CI_PROJECT_ID")) _ h₁ in
    let (uid, user, h₃) = >>=-eq-ok (require_int_env getenv (text "GITLAB_USER_ID")) _ h₂ in
    let (base, h₄) =
      refuse_if-eq-ok (is_empty (getenv (text "CI_MERGE_REQUEST_DIFF_BASE_SHA"))) _ _ _ h₃ in
    let (head, h₅) = refuse_if-eq-ok (is_empty (getenv (text "CI_COMMIT_SHA"))) _ _ _ h₄ in
    let (token, h₆) = refuse_if-eq-ok (is_empty (getenv (text "SEALD_AUTHZ_TOKEN"))) _ _ _ h₅ in
    let (_, p_flag, h₇) = >>=-eq-ok (crosscheck flags (text "project-id") pid) _ h₆ in
    let (_, u_flag, h₈) = >>=-eq-ok (crosscheck flags (text "user-id") uid) _ h₇ in
    let (_, b_flag, h₉) =
      >>=-eq-ok
        (crosscheck_str flags (text "base") (getenv (text "CI_MERGE_REQUEST_DIFF_BASE_SHA"))) _
        h₈ in
    let (_, last) =
      refuse_if-eq-ok (head_spoofed (getenv (text "CI_COMMIT_SHA")) (lookup (text "head") flags)) _
        _ _ h₉ in
    let p_is : i.project_id ≡ pid = cc in
    let u_is : i.user_id ≡ uid = cc in
    (
      record {
        host = (cc, cc);
        project = rw (p_is) (require_int_env-ok getenv _ pid project);
        user = rw (u_is) (require_int_env-ok getenv _ uid user);
        base = (cc, cc);
        head = (cc, cc);
        token = (cc, cc);
      },
      rw (p_is) (crosscheck-ok flags _ pid p_flag),
      rw (u_is) (crosscheck-ok flags _ uid u_flag),
    )
