-- ===== src/Client/Rotate/Laws.antt =====
-- rotate.go with sealedbundle_v4.go: the rotated key is sealed afresh, and nothing else is.
use gitseal.Prelude.{
  ℕ, ◌≡◌, refl, Bool, true, false, not, Option, none, some, [], ◌∷◌, Text, text, text_key, text_eq,
  text_eq_iff, ℤ, if◌then◌else◌, ok, arith, ap, sym, ok-inj, refuse_if-eq-ok,
}
use gitseal.Prelude.Dict.{Dict, lookup, erase, lookup-nil, lookup-erase}
use gitseal.Age.{Age}
use gitseal.Client.Bundle.{EnvSection, SealedBundle, or_nil, is_per_env_version}
use gitseal.Client.Author.{unsigned, section_of, v4_prior, seal_bundle_v4}
use gitseal.Client.Author.Names.{NameDiff}
use gitseal.Client.Author.Reseal.{EntryOf, fresh_entry, is_there, seal_bundle_v4-SectionOf}
use gitseal.Client.Rotate.{not_per_env, strip_section, strip_sections, strip_key_from_bundle}

abbrev pub map_option {ℓ} : {A B : Type ℓ} → (A → B) → Option A → Option B
map_option f none = none
map_option f (some a) = some (f a)

strip_sections-lookup :
    (key env : Text) (envs : Dict Text EnvSection)
    → lookup env (strip_sections key envs) ≡ map_option (strip_section key) (lookup env envs)
unfolding strip_sections lookup
strip_sections-lookup key env [] = refl
strip_sections-lookup key env ((v, sec) ∷ envs) =
    at_env (text_eq v env) (strip_sections-lookup key env envs)
  where
    at_env :
        (b : Bool)
        → lookup env (strip_sections key envs) ≡ map_option (strip_section key) (lookup env envs)
        → (if b then some (strip_section key sec) else lookup env (strip_sections key envs))
          ≡ map_option (strip_section key) (if b then some sec else lookup env envs)
    at_env true ih = refl
    at_env false ih = ih

-- A stripped section has lost the key, and holds the other names' entries as they were.
strip_section-entries :
    (key name : Text) (sec : EnvSection)
    → lookup name (or_nil (strip_section key sec).entries)
      ≡ (if text_eq key name then none else lookup name (or_nil sec.entries))
strip_section-entries key name sec = of_lookup (lookup key (or_nil sec.entries)) refl
  where
    of_lookup :
        (o : Option Text)
        → lookup key (or_nil sec.entries) ≡ o
        → lookup name (
            or_nil
              (if is_there o
                then record sec { entries = some (erase key (or_nil sec.entries)) }
                else sec).entries)
          ≡ (if text_eq key name then none else lookup name (or_nil sec.entries))
    of_lookup none absent = ground (arith, text_eq_iff key name)
    of_lookup (some enc) there = lookup-erase name key (or_nil sec.entries)

-- The prior entries that a v4 seal sees after a rotation.
stripped_entries :
    (key name : Text) (o : Option EnvSection)
    → lookup name (or_nil (section_of (map_option (strip_section key) o)).entries)
      ≡ (if text_eq key name then none else lookup name (or_nil (section_of o).entries))
stripped_entries key name none = rw (lookup-nil {K = Text} {V = Text} name) (ground arith)
stripped_entries key name (some sec) = strip_section-entries key name sec

-- A key is stripped from a v4 bundle, and values are then sealed over the stripped bundle. In each
-- env that was given values, the key's entry is its value sealed afresh (if it was given one), every
-- other name that the bundle held keeps its ciphertext verbatim, and a name that was given no value
-- is absent.
pub seal_bundle_v4-strip_key_from_bundle :
    (age : Age) (coins : Text → Text → ℕ) (human : Text) (env_recipient : Dict Text Text)
    (min_level : ℤ) (b stripped out : SealedBundle) (key env : Text) (removed : ℕ)
    (resolved : Dict Text (Dict Text Text)) (vals : Dict Text Text) (diffs : Dict Text NameDiff)
    → b.version ≡ text "v4"
    → strip_key_from_bundle b key ≡ ok (stripped, removed)
    → seal_bundle_v4 age coins (some stripped) human env_recipient min_level resolved
      ≡ ok (out, diffs)
    → lookup env resolved ≡ some vals
    → (recip : Text) × (entries : Dict Text Text) × (lookup env env_recipient ≡ some recip)
      × (lookup env (or_nil out.envs) ≡ some (unsigned entries))
      × ((name : Text)
          → EntryOf
              (fresh_entry age coins human min_level env recip name)
              (lookup name vals)
              (if text_eq key name
                then none
                else lookup name (or_nil (section_of (lookup env (or_nil b.envs))).entries))
              (lookup name entries))
unfolding strip_key_from_bundle
seal_bundle_v4-strip_key_from_bundle age coins human env_recipient min_level b stripped out key env
      removed resolved vals diffs v4 strip sealed given =
    let (_, e) =
      refuse_if-eq-ok (not (is_per_env_version b.version)) (not_per_env b.version) _ _ strip in
    let same : record b { envs = some (strip_sections key (or_nil b.envs)) } ≡ stripped =
      ap (λ (p : SealedBundle × ℕ). p.0) (ok-inj e) in
    let is_v4 : text_eq b.version (text "v4") ≡ true = rw v4 (unfold text_eq in refl) in
    let prior : lookup env (v4_prior (some stripped))
        ≡ map_option (strip_section key) (lookup env (or_nil b.envs)) =
      rw (sym same, is_v4) (strip_sections-lookup key env (or_nil b.envs)) in
    let (recip, entries, r, there, h) =
      rw (given, prior) at
        (seal_bundle_v4-SectionOf age coins human env_recipient min_level (some stripped) resolved
          out diffs env sealed) in
    (
      recip,
      entries,
      r,
      there,
      λ name. rw (stripped_entries key name (lookup env (or_nil b.envs))) at (h name),
    )
