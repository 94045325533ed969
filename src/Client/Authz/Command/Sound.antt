-- ===== src/Client/Authz/Command/Sound.antt =====
-- cmd/sealdctl/authz.go: what the command's acceptance means.
use mathlib.Core.Option.{some-injective}
use gitseal.Prelude.{
  ◌≡◌, Bool, true, false, not, ◌&&◌, Option, none, some, List, [], ◌∷◌, Text, text, text_key, ℤ,
  all, is_empty, Result, ok, err, ◌>>=◌, arith, ap, sym, >>=-eq-ok, require-bind-eq-ok,
  refuse_if-eq-ok, ok-inj, Memᴰ, require,
}
use gitseal.Prelude.Dict.{Dict, lookup}
use gitseal.Client.Config.{RepoConfig}
use gitseal.Client.Authz.Diff.{EntryChange}
use gitseal.Client.Authz.Verdict.{authz_verdict, is_ok, allowed, authz_verdict-is_ok}
use gitseal.Client.Authz.Scan.{authz_scan}
use gitseal.Client.Authz.Inputs.{AuthzInputs, resolve_authz_inputs}
use gitseal.Client.Authz.Command.{
  Calls, CommandError, authorized, as_error, bad_inputs, no_config, diff_failed, lookup_failed,
  scan_failed, denied, flag_is_true, check_signatures, signatures_or_skip, authorize_changes,
  cmd_verify_authz,
}
use gitseal.Client.Authz.Command.Signatures.{CheckedAtHead, check_signatures-CheckedAtHead}

all-Memᴰ :
    (q : Text → Bool) (cs : List EntryChange) (c : EntryChange)
    → all (λ d. q d.env) cs ≡ true
    → Memᴰ c cs
    → q c.env ≡ true
all-Memᴰ q [] c h m = elim m [ ]
all-Memᴰ q (d ∷ cs) c h (Memᴰ.head e) = rw e (ground arith)
all-Memᴰ q (d ∷ cs) c h (Memᴰ.tail m) = all-Memᴰ q cs c (ground arith) m

-- What steps 3 to 5 establish.
authorize_changes-eq-ok :
    (w : Calls) (flags : Dict Text Text) (inp : AuthzInputs) (rc : RepoConfig)
    (changes : List EntryChange) (touched : Bool) (idle : Bool)
    → authorize_changes idle w flags inp rc changes touched ≡ ok authorized
    → flag_is_true (lookup (text "no-sig-check") flags) ≡ false
    → (level : ℤ) × (w.member_level inp.host inp.token inp.project_id inp.user_id ≡ some level)
      × (is_ok (authz_verdict changes touched level rc) ≡ true)
      × (check_signatures w rc inp.project_id inp.head changes ≡ ok tt)
unfolding authorize_changes
authorize_changes-eq-ok w flags inp rc changes touched true e flag = cc
authorize_changes-eq-ok w flags inp rc changes touched false e flag =
    let (level, l, e₁) =
      require-bind-eq-ok (w.member_level inp.host inp.token inp.project_id inp.user_id)
        lookup_failed _ _ e in
    let (v, e₂) =
      refuse_if-eq-ok (not (is_empty (authz_verdict changes touched level rc)))
        (denied (authz_verdict changes touched level rc)) _ _ e₁ in
    let (_, checked, _) =
      >>=-eq-ok
        (signatures_or_skip (flag_is_true (lookup (text "no-sig-check") flags))
          (check_signatures w rc inp.project_id inp.head changes))
        _ e₂ in
    (level, l, ground arith, rw flag at (checked))

as_error-eq-ok :
    {E A : Type 0} (f : E → CommandError) (r : Result E A) (a : A) → as_error f r ≡ ok a → r ≡ ok a
as_error-eq-ok f (ok a') a e = ap ok (ok-inj e)
as_error-eq-ok f (err x) a e = cc

bind_step :
    {E A B : Type 0} {x : B} (first : Result E A) (a : A) (next : A → Result E B)
    → first ≡ ok a
    → (first >>= next) ≡ ok x
    → next a ≡ ok x
bind_step (ok a') a next f h = rw (sym (ok-inj f)) h
bind_step (err e) a next f h = cc

require_step :
    {E A B : Type 0} {x : B} (o : Option A) (a : A) (e : E) (next : A → Result E B)
    → o ≡ some a
    → (require o e >>= next) ≡ ok x
    → next a ≡ ok x
require_step none a e next f h = cc
require_step (some a') a e next f h = rw (sym (some-injective a' a f)) h

-- `verify --authz` answers that the changes are authorized, and was not told to skip signatures. Then
-- for every entry that the scan of the runner's own diff reports, one that is removed with its section
-- or its file included, the merge request's author, whose level GitLab's host gave for the runner's
-- project and user, is allowed to change its env. And its file at head, if git shows it, parses; if it
-- still holds the env's section, that section is signed, over its own bytes for the bundle's version, by
-- a registered signer whose live level reaches the env's minimum.
pub cmd_verify_authz-CheckedAtHead :
    (w : Calls) (flags : Dict Text Text) (inp : AuthzInputs) (rc : RepoConfig) (files : List Text)
    (changes : List EntryChange) (touched : Bool) (c : EntryChange)
    → cmd_verify_authz w flags ≡ ok authorized
    → flag_is_true (lookup (text "no-sig-check") flags) ≡ false
    → resolve_authz_inputs w.getenv flags ≡ ok inp
    → w.config ≡ some rc
    → w.diff_names inp.base inp.head ≡ some files
    → authz_scan w.unmarshal w.show files inp.base inp.head ≡ ok (changes, touched)
    → Memᴰ c changes
    → (level : ℤ) × (w.member_level inp.host inp.token inp.project_id inp.user_id ≡ some level)
      × (allowed rc level c.env ≡ true)
      × CheckedAtHead w rc inp.project_id c.env (w.show inp.head c.file)
unfolding cmd_verify_authz
cmd_verify_authz-CheckedAtHead w flags inp rc files changes touched c e flag inputs config diff scan
      m =
    let run : authorize_changes (is_empty changes && not touched) w flags inp rc changes touched
        ≡ ok authorized =
      bind_step (as_error scan_failed (authz_scan w.unmarshal w.show files inp.base inp.head))
        (changes, touched) _ (ap (as_error scan_failed) scan)
        (require_step (w.diff_names inp.base inp.head) files diff_failed _ diff (
          require_step w.config rc no_config _ config (
            bind_step (as_error bad_inputs (resolve_authz_inputs w.getenv flags)) inp _
              (ap (as_error bad_inputs) inputs) e))) in
    let (level, l, verdict, checked) =
      authorize_changes-eq-ok w flags inp rc changes touched (is_empty changes && not touched) run
        flag in
    (
      level,
      l,
      all-Memᴰ (allowed rc level) changes c
          (ground (arith, authz_verdict-is_ok changes touched level rc)) m,
      check_signatures-CheckedAtHead w rc inp.project_id inp.head changes c checked m,
    )
