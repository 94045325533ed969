-- ===== src/Client/Authz/Scan.antt =====
-- authz_scan.go: from the changed files to the changes that the verdict is about.
pub mod Gate
use gitseal.Prelude.{
  ℕ, ◌≡◌, Bool, true, false, not, ◌&&◌, ◌||◌, Option, none, some, List, [], ◌∷◌, ◌++◌, map, Text,
  text, text_eq, strip_prefix, if◌then◌else◌, Result, ok, err, ◌>>=◌, is_empty,
}
use gitseal.Client.Bundle.{SealedBundle, ParseError, parse_bundle, is_per_env_version}
use gitseal.Client.Authz.Diff.{EntryChange, diff_bundle_entries}

abbrev pub repo_yaml_path : Text
repo_yaml_path = text ".seald/repo.yaml"

pub data ScanError : Type 0 where
  show_failed : ScanError
  unparseable : ParseError → ScanError
  not_per_env : Text → ScanError

-- ShowFunc's answer: an error, an absent file, or its content
pub data Shown : Type 0 where
  failed absent : Shown
  content : Text → Shown

abbrev starts_with : Text → Text → Bool
starts_with prefix s = elim (strip_prefix prefix s) [ none ↦ false | some rest ↦ true ]

unfoldable pub ends_with : Text → Text → Bool
ends_with suffix [] = is_empty suffix
ends_with suffix (x ∷ s) = text_eq (x ∷ s) suffix || ends_with suffix s

-- strings.TrimPrefix(f, "./")
abbrev pub trim_dot : Text → Text
trim_dot f = elim (strip_prefix (text "./") f) [ none ↦ f | some rest ↦ rest ]

abbrev pub is_sealed : Text → Bool
is_sealed f = starts_with (text ".sealed/") f && ends_with (text ".app.json") f

-- the version check of loadBundleAtRev
abbrev pub per_env : Result ParseError SealedBundle → Result ScanError (Option SealedBundle)
per_env (err e) = err (unparseable e)
per_env (ok b) = if is_per_env_version b.version then ok (some b) else err (not_per_env b.version)

-- the changes of one bundle, stamped with its file
unfoldable pub stamp : Text → List EntryChange → List EntryChange
stamp f [] = []
stamp f (c ∷ cs) = record c { file = f } ∷ stamp f cs

module _ (unmarshal : Text → Option SealedBundle) (show : Text → Text → Shown) where
  abbrev loaded : Shown → Result ScanError (Option SealedBundle)
  loaded failed = err show_failed
  loaded absent = ok none
  loaded (content data_bytes) = per_env (parse_bundle unmarshal data_bytes)

  -- loadBundleAtRev
  unfoldable pub load_bundle_at_rev : Text → Text → Result ScanError (Option SealedBundle)
  load_bundle_at_rev rev path = loaded (show rev path)

  -- a bundle at both revisions; one that is absent at both has no changes
  unfoldable pub scan_bundle :
      Text → Text → Text → List EntryChange × Bool → Result ScanError (List EntryChange × Bool)
  unfolding load_bundle_at_rev stamp
  scan_bundle base head f (changes, touched) = do
    prior ← load_bundle_at_rev base f
    cur ← load_bundle_at_rev head f
    ok (changes ++ stamp f (diff_bundle_entries prior cur), touched)

  -- one file of the list
  unfoldable pub scan_file :
      Text → Text → Text → List EntryChange × Bool → Result ScanError (List EntryChange × Bool)
  unfolding scan_bundle
  scan_file base head f acc =
      if text_eq f repo_yaml_path
      then ok (acc.0, true)
      else if not (is_sealed f)
      then ok acc
      else scan_bundle base head f acc

  unfoldable pub scan_files :
      Text → Text → List Text → List EntryChange × Bool → Result ScanError (List EntryChange × Bool)
  scan_files base head [] acc = ok acc
  scan_files base head (f ∷ fs) acc =
      scan_file base head (trim_dot f) acc >>= scan_files base head fs

  -- AuthzScan: the changes, and whether the policy file is among the files
  unfoldable pub authz_scan : List Text → Text → Text → Result ScanError (List EntryChange × Bool)
  unfolding scan_files
  authz_scan changed_files base head = scan_files base head changed_files ([], false)
