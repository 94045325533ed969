-- ===== src/Client/Authz/Command.antt =====
-- cmd/sealdctl/authz.go: `verify --authz`, the gate as one command. Git, GitLab's member lookup, the
-- configuration and the broker's answers about signers are arguments; one run sees one repository.
mod Recorded
pub mod Signatures
pub mod Sound
use gitseal.Prelude.{
  ℕ, suc, ◌+◌, Bool, true, false, not, ◌&&◌, ◌||◌, Option, none, some, List, [], ◌∷◌, ◌++◌, Text,
  text, text_key, text_eq, ℤ, any, is_empty, eqb, if◌then◌else◌, Result, ok, err, ◌>>=◌, ◌>>◌,
  refuse_if, require,
}
use gitseal.Prelude.Dict.{Dict, lookup, insert, keys}
use gitseal.Prelude.Sort.{sort_texts}
use gitseal.Client.Bundle.{EnvSection, SealedBundle, ParseError, or_nil, parse_bundle}
use gitseal.Client.Config.{RepoConfig, min_level_for_env}
use gitseal.Client.Authz.Diff.{EntryChange}
use gitseal.Client.Authz.Verdict.{Violation, authz_verdict}
use gitseal.Client.Authz.Sig.{
  SignerResolver, SigError, verify_section_authz, verify_section_authz_v4,
}
use gitseal.Client.Authz.Scan.{Shown, failed, absent, content, ScanError, authz_scan}
use gitseal.Client.Authz.Inputs.{AuthzInputs, InputsError, resolve_authz_inputs}

-- What the command calls.
pub record Calls : Type 0 where
  pub getenv : Text → Text
  -- resolveRC
  pub config : Option RepoConfig
  -- git diff --name-only, and git show
  pub diff_names : Text → Text → Option (List Text)
  pub show : Text → Text → Shown
  -- json.Unmarshal into a bundle
  pub unmarshal : Text → Option SealedBundle
  -- ProjectMemberLevel of a host, a token, a project and a user
  pub member_level : Text → Text → ℤ → ℤ → Option ℤ
  -- RemoteSignerResolver for a project
  pub resolver : ℤ → SignerResolver
  pub sha256 : Text → Text

pub data CommandError : Type 0 where
  bad_inputs : InputsError → CommandError
  no_config diff_failed lookup_failed : CommandError
  scan_failed : ScanError → CommandError
  denied : List Violation → CommandError
  sections_denied : ℕ → CommandError

pub data Outcome : Type 0 where
  untouched authorized : Outcome

abbrev pub as_error : {E A : Type 0} → (E → CommandError) → Result E A → Result CommandError A
as_error f (ok a) = ok a
as_error f (err e) = err (f e)

abbrev pub or_none : Option (List Text) → List Text
or_none none = []
or_none (some l) = l

abbrev pub add_env : Text → List Text → List Text
add_env env envs = if any (text_eq env) envs then envs else env ∷ envs

-- changedEnvsByFile
unfoldable pub changed_envs_by_file :
    List EntryChange → Dict Text (List Text) → Dict Text (List Text)
changed_envs_by_file [] found = found
changed_envs_by_file (c ∷ cs) found =
    changed_envs_by_file cs (insert c.file (add_env c.env (or_none (lookup c.file found))) found)

abbrev pub one_unless {ℓ} : {E A : Type ℓ} → Result E A → ℕ
one_unless (ok a) = 0
one_unless (err e) = 1

-- `flags["no-sig-check"] != "true"`
abbrev pub flag_is_true : Option Text → Bool
flag_is_true none = false
flag_is_true (some v) = text_eq v (text "true")

module _ (w : Calls) (rc : RepoConfig) (project_id : ℤ) where
  -- the verifier of the bundle's version
  abbrev pub section_check : SealedBundle → Text → EnvSection → Result SigError (Unit {0})
  section_check b env sec =
      if text_eq b.version (text "v4")
      then verify_section_authz_v4 w.sha256 rc.recipient env sec (min_level_for_env rc env)
          (w.resolver project_id)
      else verify_section_authz w.sha256 project_id env sec (min_level_for_env rc env)
          (w.resolver project_id)

  abbrev pub env_violation : SealedBundle → Text → Option EnvSection → ℕ
  env_violation b env none = 0
  env_violation b env (some sec) = one_unless (section_check b env sec)

  -- the changed envs of one file
  unfoldable pub count_envs : SealedBundle → List Text → ℕ
  count_envs b [] = 0
  count_envs b (env ∷ envs) = env_violation b env (lookup env (or_nil b.envs)) + count_envs b envs

  abbrev pub count_parsed : List Text → Result ParseError SealedBundle → ℕ
  count_parsed envs (err e) = 1
  count_parsed envs (ok b) = count_envs b envs

  -- a file that cannot be shown at head is passed over
  abbrev pub count_shown : List Text → Shown → ℕ
  count_shown envs failed = 0
  count_shown envs absent = 0
  count_shown envs (content data_bytes) = count_parsed envs (parse_bundle w.unmarshal data_bytes)

  -- sigViol over the sorted files
  unfoldable pub count_files : Text → Dict Text (List Text) → List Text → ℕ
  unfolding count_envs
  count_files head by_file [] = 0
  count_files head by_file (f ∷ fs) =
      count_shown (or_none (lookup f by_file)) (w.show head f) + count_files head by_file fs

  -- step 5, the signatures of the changed sections
  unfoldable pub check_signatures : Text → List EntryChange → Result CommandError (Unit {0})
  unfolding changed_envs_by_file count_files
  check_signatures head changes =
      let by_file = changed_envs_by_file changes [] in
      let violations = count_files head by_file (sort_texts (keys by_file)) in
      refuse_if (not (eqb violations 0)) (sections_denied violations)

abbrev pub signatures_or_skip :
    Bool → Result CommandError (Unit {0}) → Result CommandError (Unit {0})
signatures_or_skip true check = ok tt
signatures_or_skip false check = check

-- steps 3 to 5; the first argument tells whether there is nothing to authorize
unfoldable pub authorize_changes :
    Bool
    → Calls
    → Dict Text Text
    → AuthzInputs
    → RepoConfig
    → List EntryChange
    → Bool
    → Result CommandError Outcome
unfolding check_signatures
authorize_changes true w flags inp rc changes touched = ok untouched
authorize_changes false w flags inp rc changes touched = do
  level ← require (w.member_level inp.host inp.token inp.project_id inp.user_id) lookup_failed
  refuse_if (not (is_empty (authz_verdict changes touched level rc)))
      (denied (authz_verdict changes touched level rc))
  _checked ←
      signatures_or_skip (flag_is_true (lookup (text "no-sig-check") flags))
        (check_signatures w rc inp.project_id inp.head changes)
  ok authorized

-- cmdVerifyAuthz
unfoldable pub cmd_verify_authz : Calls → Dict Text Text → Result CommandError Outcome
unfolding authorize_changes
cmd_verify_authz w flags = do
  inp ← as_error bad_inputs (resolve_authz_inputs w.getenv flags)
  rc ← require w.config no_config
  files ← require (w.diff_names inp.base inp.head) diff_failed
  (changes, touched) ← as_error scan_failed (authz_scan w.unmarshal w.show files inp.base inp.head)
  authorize_changes (is_empty changes && not touched) w flags inp rc changes touched
