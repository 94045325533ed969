-- ===== src/Client/Authz/Diff/Laws.antt =====
-- authz_diff.go: an entry is reported exactly if what is stored for it differs.
use gitseal.Prelude.{
  ◌≡◌, refl, Bool, true, false, not, Option, none, some, List, [], ◌∷◌, ◌++◌, Text, text_eq,
  text_key, any, ◌&&◌, ◌||◌, text_eq_iff, sym, ap, if◌then◌else◌, arith,
}
use gitseal.Prelude.Dict.{Dict, NodupKeys, lookup, lookup-nil, lookup-cons}
use gitseal.Client.Bundle.{EnvSection, SealedBundle, or_nil, entry_of}
use gitseal.Client.Authz.Diff.{
  EntryChange, walk_current, current_change, current_changes, walk_prior, removed_change,
  prior_changes, sections, diff_bundle_entries,
}

-- The change is of that key of that env.
abbrev pub is_of : Text → Text → EntryChange → Bool
is_of env key c = text_eq c.env env && text_eq c.key key

any-append :
    (p : EntryChange → Bool) (xs ys : List EntryChange) → any p (xs ++ ys) ≡ (any p xs || any p ys)
any-append p [] ys = refl
any-append p (x ∷ xs) ys = ground (arith, any-append p xs ys)

-- there now, and new or another ciphertext
abbrev written : Option Text → Option Text → Bool
written prior none = false
written none (some ct) = true
written (some old) (some ct) = not (text_eq old ct)

-- there before and not now
abbrev gone : Option Text → Option Text → Bool
gone none cur = false
gone (some old) none = true
gone (some old) (some ct) = false

current_change-any :
    (env key env' key' ct : Text) (prior : Option Text) (out : List EntryChange)
    → any (is_of env key) (current_change env' key' ct prior out) ≡ (
        ((text_eq env' env && text_eq key' key) && written prior (some ct))
        || any (is_of env key) out)
current_change-any env key env' key' ct none out = ground arith
current_change-any env key env' key' ct (some old) out = ground arith

written_case :
    (env key env' key' ct : Text) (prior : Option EnvSection) (rest : Dict Text Text) (b : Bool)
    → text_eq key' key ≡ b
    → lookup key' rest ≡ none
    → (((text_eq env' env && b) && written (entry_of prior key') (some ct))
        || (text_eq env' env && written (entry_of prior key) (lookup key rest)))
      ≡ (text_eq env' env && written (entry_of prior key) (if b then some ct else lookup key rest))
written_case env key env' key' ct prior rest true same fresh =
    let e : key' ≡ key = (text_eq_iff key' key).0 same in rw (sym e, fresh) (ground arith)
written_case env key env' key' ct prior rest false same fresh = ground arith

walk_current-any :
    (env key env' : Text) (prior : Option EnvSection) (d : Dict Text Text)
    → NodupKeys d
    → any (is_of env key) (walk_current env' prior d)
      ≡ (text_eq env' env && written (entry_of prior key) (lookup key d))
unfolding walk_current
walk_current-any env key env' prior [] u = rw (lookup-nil {K = Text} {V = Text} key) (ground arith)
walk_current-any env key env' prior ((key', ct) ∷ d) (fresh, u) =
    rw
      (
        current_change-any env key env' key' ct (entry_of prior key') (walk_current env' prior d),
        walk_current-any env key env' prior d u,
        lookup-cons key key' ct d,
      )
      (written_case env key env' key' ct prior d (text_eq key' key) refl fresh)

gone_case :
    (env key env' key' ct : Text) (cur : Option EnvSection) (rest : Dict Text Text) (b : Bool)
    → text_eq key' key ≡ b
    → lookup key' rest ≡ none
    → (((text_eq env' env && b) && gone (some ct) (entry_of cur key'))
        || (text_eq env' env && gone (lookup key rest) (entry_of cur key)))
      ≡ (text_eq env' env && gone (if b then some ct else lookup key rest) (entry_of cur key))
gone_case env key env' key' ct cur rest true same fresh =
    let e : key' ≡ key = (text_eq_iff key' key).0 same in rw (sym e, fresh) (ground arith)
gone_case env key env' key' ct cur rest false same fresh = ground arith

removed_change-any :
    (env key env' key' ct : Text) (cur : Option Text) (out : List EntryChange)
    → any (is_of env key) (removed_change env' key' cur out)
      ≡ (((text_eq env' env && text_eq key' key) && gone (some ct) cur) || any (is_of env key) out)
removed_change-any env key env' key' ct none out = ground arith
removed_change-any env key env' key' ct (some new) out = ground arith

walk_prior-any :
    (env key env' : Text) (cur : Option EnvSection) (d : Dict Text Text)
    → NodupKeys d
    → any (is_of env key) (walk_prior env' cur d)
      ≡ (text_eq env' env && gone (lookup key d) (entry_of cur key))
unfolding walk_prior
walk_prior-any env key env' cur [] u = rw (lookup-nil {K = Text} {V = Text} key) (ground arith)
walk_prior-any env key env' cur ((key', ct) ∷ d) (fresh, u) =
    rw
      (
        removed_change-any env key env' key' ct (entry_of cur key') (walk_prior env' cur d),
        walk_prior-any env key env' cur d u,
        lookup-cons key key' ct d,
      )
      (gone_case env key env' key' ct cur d (text_eq key' key) refl fresh)

-- Each key once, in the map of the sections and in each section.
abbrev pub AreValid : Dict Text EnvSection → Type 0
AreValid [] = Unit
AreValid ((env, sec) ∷ d) = (lookup env d ≡ none) × NodupKeys (or_nil sec.entries) × AreValid d

-- what is stored for an entry
abbrev pub stored : Dict Text EnvSection → Text → Text → Option Text
stored d env key = entry_of (lookup env d) key

section_case :
    (f : Option EnvSection → Bool) (env env' : Text) (sec : EnvSection) (d : Dict Text EnvSection)
    (b : Bool)
    → f none ≡ false
    → text_eq env' env ≡ b
    → lookup env' d ≡ none
    → ((b && f (some sec)) || f (lookup env d)) ≡ f (if b then some sec else lookup env d)
section_case f env env' sec d true base same fresh =
    let e : env' ≡ env = (text_eq_iff env' env).0 same in rw (sym e, fresh, base) (ground arith)
section_case f env env' sec d false base same fresh = refl

at_env :
    (g : Option EnvSection → Bool) (env env' : Text) (other : Dict Text EnvSection) (b : Bool)
    → text_eq env' env ≡ b
    → (b && g (lookup env' other)) ≡ (b && g (lookup env other))
at_env g env env' other true same = ap (λ e. g (lookup e other)) ((text_eq_iff env' env).0 same)
at_env g env env' other false same = refl

current_changes-any :
    (env key : Text) (prior d : Dict Text EnvSection)
    → AreValid d
    → any (is_of env key) (current_changes prior d)
      ≡ written (stored prior env key) (stored d env key)
unfolding current_changes
current_changes-any env key prior [] u = rw (lookup-nil {K = Text} {V = EnvSection} env) refl
current_changes-any env key prior ((env', sec) ∷ d) (fresh, entries, u) =
    rw
      (
        any-append (is_of env key) (walk_current env' (lookup env' prior) (or_nil sec.entries))
            (current_changes prior d),
        walk_current-any env key env' (lookup env' prior) (or_nil sec.entries) entries,
        current_changes-any env key prior d u,
        at_env (λ o. written (entry_of o key) (lookup key (or_nil sec.entries))) env env' prior
            (text_eq env' env) refl,
        lookup-cons env env' sec d,
      )
      (section_case (λ o. written (stored prior env key) (entry_of o key)) env env' sec d
        (text_eq env' env) refl refl fresh)

gone-none : (o : Option Text) → gone none o ≡ false
gone-none o = refl

prior_changes-any :
    (env key : Text) (cur d : Dict Text EnvSection)
    → AreValid d
    → any (is_of env key) (prior_changes cur d) ≡ gone (stored d env key) (stored cur env key)
unfolding prior_changes
prior_changes-any env key cur [] u = rw (lookup-nil {K = Text} {V = EnvSection} env) refl
prior_changes-any env key cur ((env', sec) ∷ d) (fresh, entries, u) =
    rw
      (
        any-append (is_of env key) (walk_prior env' (lookup env' cur) (or_nil sec.entries))
            (prior_changes cur d),
        walk_prior-any env key env' (lookup env' cur) (or_nil sec.entries) entries,
        prior_changes-any env key cur d u,
        at_env (λ o. gone (lookup key (or_nil sec.entries)) (entry_of o key)) env env' cur
            (text_eq env' env) refl,
        lookup-cons env env' sec d,
      )
      (section_case (λ o. gone (entry_of o key) (stored cur env key)) env env' sec d
        (text_eq env' env) refl refl fresh)

-- The same ciphertext, or none, on both sides.
unfoldable pub same_stored : Option Text → Option Text → Bool
same_stored none none = true
same_stored (some old) (some ct) = text_eq old ct
same_stored _ _ = false

written_or_gone :
    (old ct : Option Text) → (written old ct || gone old ct) ≡ not (same_stored old ct)
unfolding same_stored
written_or_gone none none = refl
written_or_gone none (some ct) = refl
written_or_gone (some old) none = refl
written_or_gone (some old) (some ct) = ground arith

-- An entry is in the diff exactly if what is stored for it in the two bundles differs: added, removed,
-- or another ciphertext. A bundle that is absent stores nothing.
pub diff_bundle_entries-is_of :
    (prior cur : Option SealedBundle) (env key : Text)
    → AreValid (sections prior)
    → AreValid (sections cur)
    → any (is_of env key) (diff_bundle_entries prior cur)
      ≡ not (same_stored (stored (sections prior) env key) (stored (sections cur) env key))
unfolding diff_bundle_entries
diff_bundle_entries-is_of prior cur env key u v =
    rw
      (
        any-append (is_of env key) (current_changes (sections prior) (sections cur))
            (prior_changes (sections cur) (sections prior)),
        current_changes-any env key (sections prior) (sections cur) v,
        prior_changes-any env key (sections cur) (sections prior) u,
      )
      (written_or_gone (stored (sections prior) env key) (stored (sections cur) env key))
