-- ===== src/Client/Authz/Scan/Gate.antt =====
-- authz_scan.go with authz_verdict.go: what an accepted merge request may have changed.
use gitseal.Prelude.{
  ◌≡◌, refl, sym, Bool, true, false, Option, List, [], ◌∷◌, ◌++◌, Text, text_eq, text_eq_iff,
  strip_prefix, ℤ, ok, >>=-eq-ok, ok-inj, arith, Bool-cases, inl, inr, Memᴰ, any, all, ap, ◌∙◌,
}
use gitseal.Client.Bundle.{SealedBundle}
use gitseal.Client.Config.{RepoConfig}
use gitseal.Client.Authz.Diff.{EntryChange, diff_bundle_entries, sections}
use gitseal.Client.Authz.Diff.Laws.{is_of, AreValid, stored, same_stored, diff_bundle_entries-is_of}
use gitseal.Client.Authz.Verdict.{authz_verdict, is_ok, allowed, authz_verdict-is_ok}
use gitseal.Client.Authz.Scan.{
  Shown, repo_yaml_path, trim_dot, is_sealed, ends_with, stamp, load_bundle_at_rev, scan_bundle,
  scan_file, scan_files, authz_scan,
}

-- A test of the env holds of all changes.
abbrev AllEnvs : (Text → Bool) → List EntryChange → Type 0
AllEnvs q cs = all (λ c. q c.env) cs ≡ true

AllEnvs-append :
    (q : Text → Bool) (xs ys : List EntryChange)
    → AllEnvs q (xs ++ ys)
    → AllEnvs q xs × AllEnvs q ys
AllEnvs-append q [] ys h = (refl, h)
AllEnvs-append q (x ∷ xs) ys h =
    let both = AllEnvs-append q xs ys in (ground (arith, both), ground (arith, both))

AllEnvs-stamp :
    (q : Text → Bool) (f : Text) (cs : List EntryChange) → AllEnvs q (stamp f cs) → AllEnvs q cs
unfolding stamp
AllEnvs-stamp q f [] h = refl
AllEnvs-stamp q f (c ∷ cs) h = ground (arith, AllEnvs-stamp q f cs)

AllEnvs-is_of :
    (q : Text → Bool) (env key : Text) (cs : List EntryChange)
    → AllEnvs q cs
    → any (is_of env key) cs ≡ true
    → q env ≡ true
AllEnvs-is_of q env key [] h found = cc
AllEnvs-is_of q env key (c ∷ cs) h found =
    ground (arith, AllEnvs-is_of q env key cs, text_eq_iff c.env env)

not_repo_yaml : (f : Text) → is_sealed f ≡ true → text_eq f repo_yaml_path ≡ false
unfolding strip_prefix ends_with
not_repo_yaml f h = elim (Bool-cases (text_eq f repo_yaml_path)) [
  | inl policy ↦
      (let e = (text_eq_iff f repo_yaml_path).0 policy in
        let clash : false ≡ true = rw e at (h) in cc)
  | inr other ↦ other
]

module _ (unmarshal : Text → Option SealedBundle) (show : Text → Text → Shown) (base head : Text)
    (q : Text → Bool) where
  -- what one file adds
  abbrev Scanned : Text → Type 0
  Scanned f =
      is_sealed f ≡ true
      → (prior cur : Option SealedBundle) → load_bundle_at_rev unmarshal show base f ≡ ok prior
      → load_bundle_at_rev unmarshal show head f ≡ ok cur
      → AllEnvs q (diff_bundle_entries prior cur)

  scan_bundle-AllEnvs :
      (f : Text) (acc out : List EntryChange × Bool)
      → scan_bundle unmarshal show base head f acc ≡ ok out
      → AllEnvs q out.0
      → AllEnvs q acc.0 × Scanned f
  unfolding scan_bundle
  scan_bundle-AllEnvs f (changes, touched) out h all_out =
      let (prior, at_base, h₁) = >>=-eq-ok (load_bundle_at_rev unmarshal show base f) _ h in
      let (cur, at_head, h₂) = >>=-eq-ok (load_bundle_at_rev unmarshal show head f) _ h₁ in
      let all_both : AllEnvs q (changes ++ stamp f (diff_bundle_entries prior cur)) =
        rw (ap (λ p. p.0) (ok-inj h₂)) all_out in
      let (before, new) =
        AllEnvs-append q changes (stamp f (diff_bundle_entries prior cur)) all_both in
      (
        before,
        λ sealed prior' cur' at_base' at_head'.
            let p_is : prior' ≡ prior = ok-inj (sym at_base' ∙ at_base) in
            let c_is : cur' ≡ cur = ok-inj (sym at_head' ∙ at_head) in
            rw (p_is, c_is) (AllEnvs-stamp q f (diff_bundle_entries prior cur) new),
      )

  scan_file-AllEnvs :
      (f : Text) (acc out : List EntryChange × Bool)
      → scan_file unmarshal show base head f acc ≡ ok out
      → AllEnvs q out.0
      → AllEnvs q acc.0 × Scanned f
  unfolding scan_file
  scan_file-AllEnvs f acc out h all_out = elim (Bool-cases (is_sealed f)) [
    | inl sealed ↦
        scan_bundle-AllEnvs f acc out (rw (not_repo_yaml f sealed, sealed) at (h)) all_out
    | inr plain ↦ (ground arith, λ sealed. cc)
  ]

  member-Scanned :
      (g f : Text) (fs : List Text)
      → Scanned (trim_dot f)
      → ((g' : Text) → Memᴰ g' fs → Scanned (trim_dot g'))
      → Memᴰ g (f ∷ fs)
      → Scanned (trim_dot g)
  member-Scanned g f fs first later (Memᴰ.head e) = rw (e) first
  member-Scanned g f fs first later (Memᴰ.tail m) = later g m

  scan_files-AllEnvs :
      (fs : List Text) (acc out : List EntryChange × Bool)
      → scan_files unmarshal show base head fs acc ≡ ok out
      → AllEnvs q out.0
      → AllEnvs q acc.0 × ((f : Text) → Memᴰ f fs → Scanned (trim_dot f))
  unfolding scan_files
  scan_files-AllEnvs [] acc out h all_out = (rw (ok-inj h) all_out, λ f m. elim m [ ])
  scan_files-AllEnvs (f ∷ fs) acc out h all_out =
      let (acc', first, rest) =
        >>=-eq-ok (scan_file unmarshal show base head (trim_dot f) acc) _ h in
      let (all_acc', later) = scan_files-AllEnvs fs acc' out rest all_out in
      let (all_acc, here) = scan_file-AllEnvs (trim_dot f) acc acc' first all_acc' in
      (all_acc, λ g m. member-Scanned g f fs here later m)

allowed_all :
    (changes : List EntryChange) (touched : Bool) (level : ℤ) (rc : RepoConfig)
    → is_ok (authz_verdict changes touched level rc) ≡ true
    → AllEnvs (allowed rc level) changes
allowed_all changes touched level rc h =
    ground (arith, authz_verdict-is_ok changes touched level rc)

-- The gate as a whole: where the scan succeeds and the verdict on it is OK, an entry that differs
-- between base and head, in a sealed file of the list, is of an env that the policy declares and whose
-- level the author reaches.
pub authz_scan-allowed :
    (unmarshal : Text → Option SealedBundle) (show : Text → Text → Shown) (files : List Text)
    (base head : Text) (changes : List EntryChange) (touched : Bool) (level : ℤ) (rc : RepoConfig)
    (f env key : Text) (prior cur : Option SealedBundle)
    → authz_scan unmarshal show files base head ≡ ok (changes, touched)
    → is_ok (authz_verdict changes touched level rc) ≡ true
    → Memᴰ f files
    → is_sealed (trim_dot f) ≡ true
    → load_bundle_at_rev unmarshal show base (trim_dot f) ≡ ok prior
    → load_bundle_at_rev unmarshal show head (trim_dot f) ≡ ok cur
    → AreValid (sections prior)
    → AreValid (sections cur)
    → same_stored (stored (sections prior) env key) (stored (sections cur) env key) ≡ false
    → allowed rc level env ≡ true
unfolding authz_scan
authz_scan-allowed unmarshal show files base head changes touched level rc f env key prior cur
      scanned verdict m sealed at_base at_head u v differs =
    let all_ok = allowed_all changes touched level rc verdict in
    let (_, each) =
      scan_files-AllEnvs unmarshal show base head (allowed rc level) files ([], false)
        (changes, touched) scanned all_ok in
    AllEnvs-is_of (allowed rc level) env key (diff_bundle_entries prior cur)
      (each f m sealed prior cur at_base at_head)
      (rw (diff_bundle_entries-is_of prior cur env key u v, differs) refl)
