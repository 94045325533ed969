-- ===== src/Client/Examples.antt =====
-- A repository, its bundles and a merge request on concrete contents.
use gitseal.Prelude.{
  zero, ◌≡◌, refl, true, false, not, ◌&&◌, ◌||◌, Option, none, some, List, [], ◌∷◌, Text, text,
  text_eq, strip_prefix, pos, ℤ, if◌then◌else◌, ltb_ℤ, all, any, ok, Memᴰ, text_key,
}
use gitseal.Prelude.Dict.{Dict, lookup, insert, keys}
use gitseal.Prelude.Sort.{sort_texts, insert_sorted}
use gitseal.Strconv.{parse_int, parse_digits}
use gitseal.Age.{toy}
use gitseal.Client.Bundle.{
  SealedBundle, EnvSection, or_nil, parse_bundle, normalize, is_per_env_version,
}
use gitseal.Client.Config.{RepoConfig, min_level_for_env}
use gitseal.Client.Authz.Diff.{
  EntryChange, distinct_envs, diff_bundle_entries, sections, entry_change, changed, current_changes,
  walk_current, prior_changes, walk_prior,
}
use gitseal.Client.Authz.Diff.Laws.{is_of, AreValid, stored, same_stored, diff_bundle_entries-is_of}
use gitseal.Client.Authz.Verdict.{
  authz_verdict, env_violations, envs_touched, is_ok, allowed, policy_edit_min_level,
  authz_verdict-is_ok,
}
use gitseal.Client.Authz.Sig.{
  SignerResolver, verify_section, verify_section_authz, verify_section_authz_v4,
}
use gitseal.Client.Authz.Scan.{
  Shown, content, trim_dot, is_sealed, ends_with, stamp, load_bundle_at_rev, scan_bundle, scan_file,
  scan_files, authz_scan,
}
use gitseal.Client.Authz.Scan.Gate.{authz_scan-allowed}
use gitseal.Client.Authz.Inputs.{
  AuthzInputs, resolve_authz_inputs, require_int_env, crosscheck, crosscheck_str,
}
use gitseal.Client.Authz.Inputs.Laws.{FromRunner, agrees, resolve_authz_inputs-FromRunner}
use gitseal.Client.Authz.Command.{
  Calls, authorized, cmd_verify_authz, authorize_changes, check_signatures, changed_envs_by_file,
  count_files, count_envs, flag_is_true,
}
use gitseal.Client.Authz.Command.Signatures.{CheckedAtHead}
use gitseal.Client.Authz.Command.Sound.{cmd_verify_authz-CheckedAtHead}
use gitseal.Client.Verify.{verify_bundle, unmigrated, is_none}
use gitseal.Client.Verify
use gitseal.Client.Verify.Laws.{v3_passes, verify_bundle-v3}

abbrev config : RepoConfig
config = record {
  project_id = pos 7;
  recipient = text "human";
  min_access_level = pos 0;
  clusters = (text "c", text "cluster") ∷ [];
  env_cluster = (text "dev", text "c") ∷ (text "prod", text "c") ∷ [];
  env_min_level = (text "prod", pos 40) ∷ [];
  env_recipient = [];
  env_namespace = [];
}

abbrev bundle : Text → Text → SealedBundle
bundle version ct = record {
  kind = text "SealedBundle";
  version = version;
  project_id = pos 0;
  min_access_level = pos 0;
  recipient = [];
  entries = none;
  recipients = none;
  envs = some (
      (
        text "prod",
        record {
          cluster = [];
          entries = some ((text "DB", ct) ∷ []);
          sig = some (record { by = text "fp"; sig = text "s" });
        },
      )
      ∷ []);
}

abbrev old : SealedBundle
old = bundle (text "v3") (text "AAAA")

abbrev new : SealedBundle
new = bundle (text "v3") (text "BBBB")

abbrev changes : List EntryChange
changes =
    record (entry_change (text "prod") (text "DB") changed) { file = text ".sealed/a.app.json" }
    ∷ []

old-AreValid : AreValid (sections (some old))
unfolding lookup
old-AreValid = (refl, (refl, tt), tt)

new-AreValid : AreValid (sections (some new))
unfolding lookup
new-AreValid = (refl, (refl, tt), tt)

authz_verdict-is_ok_example : is_ok (authz_verdict changes true (pos 40) config) ≡ (
    all (λ c. allowed config (pos 40) c.env) changes
    && (not true || not (ltb_ℤ (pos 40) policy_edit_min_level)))
authz_verdict-is_ok_example = authz_verdict-is_ok changes true (pos 40) config

diff_bundle_entries-is_of_example :
    any (is_of (text "prod") (text "DB")) (diff_bundle_entries (some old) (some new))
    ≡ not (
        same_stored
          (stored (sections (some old)) (text "prod") (text "DB"))
          (stored (sections (some new)) (text "prod") (text "DB")))
diff_bundle_entries-is_of_example =
    diff_bundle_entries-is_of (some old) (some new) (text "prod") (text "DB") old-AreValid
      new-AreValid

-- json.Unmarshal, of files that are one byte: 0 the old bundle and another the new one
abbrev unmarshal : Text → Option SealedBundle
unmarshal [] = none
unmarshal (zero ∷ s) = some old
unmarshal (_ ∷ s) = some new

abbrev show : Text → Text → Shown
show rev path = content rev

abbrev sealed_path : Text
sealed_path = text ".sealed/a.app.json"

scanned : authz_scan unmarshal show (sealed_path ∷ []) (0 ∷ []) (1 ∷ []) ≡ ok (changes, false)
unfolding authz_scan scan_files scan_file scan_bundle load_bundle_at_rev parse_bundle normalize
    is_per_env_version diff_bundle_entries current_changes walk_current prior_changes walk_prior
    stamp ends_with text_eq strip_prefix lookup
scanned = refl

verdict_ok : is_ok (authz_verdict changes false (pos 40) config) ≡ true
unfolding authz_verdict env_violations envs_touched distinct_envs sort_texts insert_sorted
    min_level_for_env text_eq lookup
verdict_ok = refl

sealed_path-is_sealed : is_sealed (trim_dot sealed_path) ≡ true
unfolding strip_prefix ends_with text_eq
sealed_path-is_sealed = refl

at_base : load_bundle_at_rev unmarshal show (0 ∷ []) (trim_dot sealed_path) ≡ ok (some old)
unfolding load_bundle_at_rev parse_bundle normalize is_per_env_version text_eq
at_base = refl

at_head : load_bundle_at_rev unmarshal show (1 ∷ []) (trim_dot sealed_path) ≡ ok (some new)
unfolding load_bundle_at_rev parse_bundle normalize is_per_env_version text_eq
at_head = refl

db_differs :
    same_stored
      (stored (sections (some old)) (text "prod") (text "DB"))
      (stored (sections (some new)) (text "prod") (text "DB"))
    ≡ false
unfolding same_stored lookup text_eq
db_differs = refl

authz_scan-allowed_example : allowed config (pos 40) (text "prod") ≡ true
authz_scan-allowed_example =
    authz_scan-allowed unmarshal show (sealed_path ∷ []) (0 ∷ []) (1 ∷ []) changes false (pos 40)
      config sealed_path (text "prod") (text "DB") (some old) (some new) scanned verdict_ok
      (Memᴰ.head refl) sealed_path-is_sealed at_base at_head old-AreValid new-AreValid db_differs

-- one registered signer, whose signatures are all the text "s"
abbrev resolver : SignerResolver
resolver = record {
  pub_key_for = λ fp. some fp;
  live_level_for = λ fp. some (pos 40);
  verify = λ key msg sig. text_eq sig (text "s");
}

abbrev section : EnvSection
section = record {
  cluster = [];
  entries = some ((text "DB", text "AAAA") ∷ []);
  sig = some (record { by = text "fp"; sig = text "s" });
}

-- sha256 as a function that keeps its input
abbrev hash : Text → Text
hash s = s

accepted_v3 : verify_section_authz hash (pos 7) (text "prod") section (pos 40) resolver ≡ ok tt
unfolding verify_section_authz verify_section text_eq
accepted_v3 = refl

accepted_v4 :
    verify_section_authz_v4 hash (text "human") (text "prod") section (pos 40) resolver ≡ ok tt
unfolding verify_section_authz_v4 verify_section text_eq
accepted_v4 = refl

-- a runner that answers each variable by 7, so that the numbers parse
abbrev getenv : Text → Text
getenv key = text "7"

abbrev inputs : AuthzInputs
inputs = record {
  host = text "7";
  project_id = pos 7;
  user_id = pos 7;
  base = text "7";
  head = text "7";
  token = text "7";
}

abbrev flags : Dict Text Text
flags = (text "project-id", text "7") ∷ (text "head", text "HEAD") ∷ []

resolved : resolve_authz_inputs getenv flags ≡ ok inputs
unfolding resolve_authz_inputs require_int_env crosscheck crosscheck_str parse_int parse_digits
    lookup text_eq
resolved = refl

resolve_authz_inputs-FromRunner_example :
    FromRunner getenv inputs
    × (agrees (lookup (text "project-id") flags) (pos 7) ≡ true)
    × (agrees (lookup (text "user-id") flags) (pos 7) ≡ true)
resolve_authz_inputs-FromRunner_example =
    resolve_authz_inputs-FromRunner getenv flags inputs resolved

verify_bundle-v3_example : Verify.is_ok (verify_bundle toy old config true) ≡ (
    all (λ env. not (is_none (lookup env (or_nil old.envs)))) (keys config.env_cluster)
    && all (v3_passes toy old) (keys (or_nil old.envs)))
verify_bundle-v3_example = verify_bundle-v3 toy old config true refl

-- the same runner, but the merge request's base is another revision
abbrev gate_env : Text → Text
gate_env key = if text_eq key (text "CI_MERGE_REQUEST_DIFF_BASE_SHA") then 0 ∷ [] else text "7"

abbrev gate_inputs : AuthzInputs
gate_inputs = record inputs { base = 0 ∷ [] }

abbrev calls : Calls
calls = record {
  getenv = gate_env;
  config = some config;
  diff_names = λ base head. some (sealed_path ∷ []);
  show = show;
  unmarshal = unmarshal;
  member_level = λ host token project user. some (pos 40);
  resolver = λ project. resolver;
  sha256 = hash;
}

gate_resolved : resolve_authz_inputs gate_env flags ≡ ok gate_inputs
unfolding resolve_authz_inputs require_int_env crosscheck crosscheck_str parse_int parse_digits
    lookup text_eq
gate_resolved = refl

gate_scanned :
    authz_scan unmarshal show (sealed_path ∷ []) (0 ∷ []) (text "7") ≡ ok (changes, false)
unfolding authz_scan scan_files scan_file scan_bundle load_bundle_at_rev parse_bundle normalize
    is_per_env_version diff_bundle_entries current_changes walk_current prior_changes walk_prior
    stamp ends_with text_eq strip_prefix lookup
gate_scanned = refl

gate_run : cmd_verify_authz calls flags ≡ ok authorized
unfolding cmd_verify_authz authorize_changes check_signatures changed_envs_by_file count_files
    count_envs verify_section_authz verify_section resolve_authz_inputs require_int_env crosscheck
    crosscheck_str parse_int parse_digits authz_scan scan_files scan_file scan_bundle
    load_bundle_at_rev parse_bundle normalize is_per_env_version diff_bundle_entries current_changes
    walk_current prior_changes walk_prior stamp ends_with authz_verdict env_violations envs_touched
    distinct_envs sort_texts insert_sorted min_level_for_env strip_prefix text_eq lookup insert keys
gate_run = refl

no_flag : flag_is_true (lookup (text "no-sig-check") flags) ≡ false
unfolding lookup text_eq
no_flag = refl

cmd_verify_authz-CheckedAtHead_example :
    (level : ℤ) × (◌≡◌ {A = Option ℤ} (some (pos 40)) (some level))
    × (allowed config level (text "prod") ≡ true)
    × CheckedAtHead calls config (pos 7) (text "prod") (content (text "7"))
cmd_verify_authz-CheckedAtHead_example =
    cmd_verify_authz-CheckedAtHead calls flags gate_inputs config (sealed_path ∷ []) changes false
      (record (entry_change (text "prod") (text "DB") changed) { file = sealed_path }) gate_run
      no_flag gate_resolved refl refl gate_scanned (Memᴰ.head refl)
