-- ===== src/Client/Authz/Inputs.antt =====
-- authz_inputs.go: the gate's inputs, from the runner's variables only.
pub mod Laws
use gitseal.Prelude.{
  ℕ, ◌≡◌, refl, Bool, true, false, not, ◌&&◌, ◌||◌, Option, none, some, List, [], ◌∷◌, Text, text,
  text_eq, text_key, text_eq_iff, ℤ, eqb_ℤ, eqb_ℤ_iff, is_empty, if◌then◌else◌, Result, ok, err,
  ◌>>=◌, ◌>>◌, refuse_if, require, >>=-eq-ok, refuse_if-eq-ok, arith,
}
use gitseal.Prelude.Dict.{Dict, lookup}
use gitseal.Strconv.{parse_int}

-- AuthzInputs
pub record AuthzInputs : Type 0 where
  pub host : Text
  pub project_id : ℤ
  pub user_id : ℤ
  pub base : Text
  pub head : Text
  pub token : Text

pub data InputsError : Type 0 where
  not_set : Text → InputsError
  not_an_integer : Text → InputsError
  disagrees : Text → InputsError

-- requireIntEnv
unfoldable pub require_int_env : (Text → Text) → Text → Result InputsError ℤ
require_int_env getenv key = do
  refuse_if (is_empty (getenv key)) (not_set key)
  require (parse_int (getenv key)) (not_an_integer key)

abbrev crossed : Text → ℤ → Option ℤ → Result InputsError (Unit {0})
crossed name want none = err (not_an_integer name)
crossed name want (some got) = if eqb_ℤ got want then ok tt else err (disagrees name)

abbrev crosscheck_flag : Text → ℤ → Option Text → Result InputsError (Unit {0})
crosscheck_flag name want none = ok tt
crosscheck_flag name want (some v) = if is_empty v then ok tt else crossed name want (parse_int v)

-- crosscheck
unfoldable pub crosscheck : Dict Text Text → Text → ℤ → Result InputsError (Unit {0})
crosscheck flags name want = crosscheck_flag name want (lookup name flags)

abbrev crosscheck_str_flag : Text → Text → Option Text → Result InputsError (Unit {0})
crosscheck_str_flag name want none = ok tt
crosscheck_str_flag name want (some v) =
    if is_empty v || text_eq v want then ok tt else err (disagrees name)

-- crosscheckStr
unfoldable pub crosscheck_str : Dict Text Text → Text → Text → Result InputsError (Unit {0})
crosscheck_str flags name want = crosscheck_str_flag name want (lookup name flags)

abbrev head_spoofed : Text → Option Text → Bool
head_spoofed head none = false
head_spoofed head (some v) =
    not (is_empty v) && (not (text_eq v (text "HEAD")) && not (text_eq v head))

-- ResolveAuthzInputs
unfoldable pub resolve_authz_inputs :
    (Text → Text) → Dict Text Text → Result InputsError AuthzInputs
unfolding require_int_env crosscheck crosscheck_str
resolve_authz_inputs getenv flags = do
  refuse_if (is_empty (getenv (text "CI_SERVER_HOST"))) (not_set (text "CI_SERVER_HOST"))
  pid ← require_int_env getenv (text "CI_PROJECT_ID")
  uid ← require_int_env getenv (text "GITLAB_USER_ID")
  refuse_if (is_empty (getenv (text "CI_MERGE_REQUEST_DIFF_BASE_SHA")))
      (not_set (text "CI_MERGE_REQUEST_DIFF_BASE_SHA"))
  refuse_if (is_empty (getenv (text "CI_COMMIT_SHA"))) (not_set (text "CI_COMMIT_SHA"))
  refuse_if (is_empty (getenv (text "SEALD_AUTHZ_TOKEN"))) (not_set (text "SEALD_AUTHZ_TOKEN"))
  crosscheck flags (text "project-id") pid
  crosscheck flags (text "user-id") uid
  crosscheck_str flags (text "base") (getenv (text "CI_MERGE_REQUEST_DIFF_BASE_SHA"))
  refuse_if (head_spoofed (getenv (text "CI_COMMIT_SHA")) (lookup (text "head") flags))
      (disagrees (text "head"))
  ok (record {
    host = getenv (text "CI_SERVER_HOST");
    project_id = pid;
    user_id = uid;
    base = getenv (text "CI_MERGE_REQUEST_DIFF_BASE_SHA");
    head = getenv (text "CI_COMMIT_SHA");
    token = getenv (text "SEALD_AUTHZ_TOKEN");
  })
