-- ===== src/Client/Migrate/Loops.antt =====
-- migrate_v3.go, migrate_v4.go and migrate_envrecip.go: what the loops make of a bundle.
use gitseal.Prelude.{
  ◌≡◌, refl, Bool, true, false, ◌||◌, Option, none, some, List, [], ◌∷◌, Text, text_key, text_eq,
  text_eq_iff, ℤ, any, if◌then◌else◌, Result, ok, err, arith, ap, sym, >>=-eq-ok,
  require-bind-eq-ok, ok-inj,
}
use gitseal.Prelude.Dict.{Dict, lookup, lookup-nil, lookup-insert}
use gitseal.Base64
use gitseal.Crypto.Errors.{Error}
use gitseal.Client.Bundle.{EnvSection}
use gitseal.Client.Migrate.{
  MigrateError, unreadable, decrypt_failed, reseal_failed, migrate_sections, failed_as,
  reseal_entries,
}

failed_as-eq-ok :
    {E F A : Type 0} (f : E → F) (r : Result E A) (a : A) → failed_as f r ≡ ok a → r ≡ ok a
failed_as-eq-ok f (ok a') a e = ap ok (ok-inj e)
failed_as-eq-ok f (err x) a e = cc

-- What a name's entry is afterwards, from whether the section had one: what was read and opened,
-- sealed again with its level.
abbrev pub ResealedOf :
    (Text → Option Text)
    → (Text → Result Error (Text × ℤ))
    → (Text → Text → ℤ → Result Error Text)
    → Text
    → Bool
    → Option Text
    → Type 0
ResealedOf read open_one seal_one name false entry = entry ≡ none
ResealedOf read open_one seal_one name true entry =
    (ct : Text) × (pt : Text) × (level : ℤ) × (nct : Text) × (read name ≡ some ct)
    × (open_one ct ≡ ok (pt, level))
    × (seal_one name pt level ≡ ok nct)
    × (entry ≡ some (Base64.encode nct))

module _ (env : Text) (read : Text → Option Text) (open_one : Text → Result Error (Text × ℤ))
    (seal_one : Text → Text → ℤ → Result Error Text) where
  pub reseal_entries-ResealedOf :
      (names : List Text) (out : Dict Text Text) (name : Text)
      → reseal_entries env read open_one seal_one names ≡ ok out
      → ResealedOf read open_one seal_one name (any (text_eq name) names) (lookup name out)
  unfolding reseal_entries
  reseal_entries-ResealedOf [] out name e =
      rw (sym (ok-inj e)) (lookup-nil {K = Text} {V = Text} name)
  reseal_entries-ResealedOf (n ∷ names) out name e =
      let (ct, r, e₁) = require-bind-eq-ok (read n) (unreadable env n) _ _ e in
      let ((pt, level), o, e₂) = >>=-eq-ok (failed_as (decrypt_failed env n) (open_one ct)) _ e₁ in
      let (nct, s, e₃) = >>=-eq-ok (failed_as (reseal_failed env n) (seal_one n pt level)) _ e₂ in
      let (rest, walked, e₄) = >>=-eq-ok (reseal_entries env read open_one seal_one names) _ e₃ in
      rw (sym (ok-inj e₄), lookup-insert name n (Base64.encode nct) rest)
        (at_name name n ct pt nct level rest (any (text_eq name) names) (text_eq name n) refl r
          (failed_as-eq-ok (decrypt_failed env n) (open_one ct) (pt, level) o)
          (failed_as-eq-ok (reseal_failed env n) (seal_one n pt level) nct s)
          (reseal_entries-ResealedOf names rest name walked))
    where
      at_name :
          (name n ct pt nct : Text) (level : ℤ) (rest : Dict Text Text) (later same : Bool)
          → text_eq name n ≡ same
          → read n ≡ some ct
          → open_one ct ≡ ok (pt, level)
          → seal_one n pt level ≡ ok nct
          → ResealedOf read open_one seal_one name later (lookup name rest)
          → ResealedOf read open_one seal_one name
              (same || later)
              (if text_eq n name then some (Base64.encode nct) else lookup name rest)
      at_name name n ct pt nct level rest later true t r o s ih =
          let here : name ≡ n = (text_eq_iff name n).0 t in
          let t' : text_eq n name ≡ true = (text_eq_iff n name).1 (sym here) in
          rw t' (ct, pt, level, nct, rw here r, o, rw here s, refl)
      at_name name n ct pt nct level rest later false t r o s ih =
          let t' : text_eq n name ≡ false =
            ground (arith, text_eq_iff n name, text_eq_iff name n) in
          rw t' ih

-- Each section of the bundle is replaced by what one round makes of it.
pub migrate_sections-lookup :
    (one : Text → EnvSection → Result MigrateError EnvSection) (envs out : Dict Text EnvSection)
    (env : Text) (sec : EnvSection)
    → migrate_sections one envs ≡ ok out
    → lookup env envs ≡ some sec
    → (new : EnvSection) × (one env sec ≡ ok new) × (lookup env out ≡ some new)
unfolding migrate_sections lookup
migrate_sections-lookup one [] out env sec e found = cc
migrate_sections-lookup one ((v, s) ∷ envs) out env sec e found =
    let (new, made, e₁) = >>=-eq-ok (one v s) _ e in
    let (rest, walked, e₂) = >>=-eq-ok (migrate_sections one envs) _ e₁ in
    rw (sym (ok-inj e₂)) (
      at_env (text_eq v env) refl new rest made
        (migrate_sections-lookup one envs rest env sec walked) found)
  where
    at_env :
        (b : Bool)
        → text_eq v env ≡ b
        → (new : EnvSection) (rest : Dict Text EnvSection) → one v s ≡ ok new
        → (lookup env envs ≡ some sec
            → (n : EnvSection) × (one env sec ≡ ok n) × (lookup env rest ≡ some n))
        → (if b then some s else lookup env envs) ≡ some sec
        → (n : EnvSection) × (one env sec ≡ ok n)
          × ((if b then some new else lookup env rest) ≡ some n)
    at_env true t new rest made ih h =
        let same : s ≡ sec = cc in
        let here : v ≡ env = (text_eq_iff v env).0 t in (new, rw (sym same, sym here) made, refl)
    at_env false t new rest made ih h = ih h
