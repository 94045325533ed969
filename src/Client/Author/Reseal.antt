-- ===== src/Client/Author/Reseal.antt =====
-- sealedbundle_v4.go: what a new seal keeps and what it writes.
use gitseal.Prelude.{
  ℕ, ◌≡◌, refl, Bool, true, false, Option, none, some, List, [], ◌∷◌, Text, text, text_key, text_eq,
  text_eq_iff, ℤ, any, if◌then◌else◌, Result, ok, arith, ap, sym, ◌∙◌, >>=-eq-ok,
  require-bind-eq-ok, ok-inj, inl, inr, Bool-cases,
}
use gitseal.Prelude.Dict.{Dict, lookup, insert, keys, lookup-nil, lookup-cons, lookup-insert}
use gitseal.Prelude.Sort.{sort_texts, any-sort_texts}
use gitseal.Age.{Age}
use gitseal.Crypto.Seal.{seal_multi_v4}
use gitseal.Client.Bundle.{EnvSection, SealedBundle, or_nil}
use gitseal.Client.Author.Names.{NameDiff}
use gitseal.Client.Author.{
  AuthorError, no_env_recipient, encoded, carried_or, seal_entries, unsigned, section_of,
  prior_entries, seal_envs, per_env_bundle, seal_env_v4, v4_prior, seal_bundle_v4,
}

-- What a name's entry is, from the name's value and the prior entry.
abbrev pub EntryOf :
    (Text → Result AuthorError Text) → Option Text → Option Text → Option Text → Type 0
EntryOf fresh none prior entry = entry ≡ none
EntryOf fresh (some val) (some enc) entry = entry ≡ some enc
EntryOf fresh (some val) none entry = (enc : Text) × (fresh val ≡ ok enc) × (entry ≡ some enc)

first_entry :
    (fresh : Text → Result AuthorError Text) (val enc : Text) (prior : Option Text)
    → carried_or prior (fresh val) ≡ ok enc
    → EntryOf fresh (some val) prior (some enc)
first_entry fresh val enc none e = (enc, e, refl)
first_entry fresh val enc (some p) e = ap some (sym (ok-inj e))

pub seal_entries-EntryOf :
    (fresh : Text → Text → Result AuthorError Text) (prior vals entries : Dict Text Text)
    (name : Text)
    → seal_entries fresh prior vals ≡ ok entries
    → EntryOf (fresh name) (lookup name vals) (lookup name prior) (lookup name entries)
unfolding seal_entries
seal_entries-EntryOf fresh prior [] entries name e =
    rw (lookup-nil {K = Text} {V = Text} name)
      (rw (sym (ok-inj e)) (lookup-nil {K = Text} {V = Text} name))
seal_entries-EntryOf fresh prior ((n, v) ∷ vals) entries name e =
    let (enc, sealed, e₁) = >>=-eq-ok (carried_or (lookup n prior) (fresh n v)) _ e in
    let (others, rest, e₂) = >>=-eq-ok (seal_entries fresh prior vals) _ e₁ in
    rw (sym (ok-inj e₂), lookup-cons name n v vals, lookup-insert name n enc others)
      (entry_at fresh prior vals others name n v enc (text_eq n name) refl sealed
        (seal_entries-EntryOf fresh prior vals others name rest))
  where
    entry_at :
        (fresh : Text → Text → Result AuthorError Text) (prior vals others : Dict Text Text)
        (name n v enc : Text) (b : Bool)
        → text_eq n name ≡ b
        → carried_or (lookup n prior) (fresh n v) ≡ ok enc
        → EntryOf (fresh name) (lookup name vals) (lookup name prior) (lookup name others)
        → EntryOf
            (fresh name)
            (if b then some v else lookup name vals)
            (lookup name prior)
            (if b then some enc else lookup name others)
    entry_at fresh prior vals others name n v enc false t sealed h = h
    entry_at fresh prior vals others name n v enc true t sealed h =
        let same : n ≡ name = (text_eq_iff n name).0 t in
        rw (sym same) (first_entry (fresh n) v enc (lookup n prior) sealed)

module _ (seal_env : Text → Result AuthorError (Dict Text Text))
    (prior : Dict Text EnvSection) where
  -- An env that the loop does not visit keeps its section.
  pub seal_envs-other :
      (envs : List Text) (sections out : Dict Text EnvSection) (diffs : Dict Text NameDiff)
      (env : Text)
      → seal_envs seal_env prior envs sections ≡ ok (out, diffs)
      → any (text_eq env) envs ≡ false
      → lookup env out ≡ lookup env sections
  unfolding seal_envs
  seal_envs-other [] sections out diffs env e _ =
      ap (λ (r : Dict Text EnvSection × Dict Text NameDiff). lookup env r.0) (sym (ok-inj e))
  seal_envs-other (v ∷ envs) sections out diffs env e absent =
      let (entries, _, e₁) = >>=-eq-ok (seal_env v) _ e in
      let ((o, ds), rest, e₂) =
        >>=-eq-ok (seal_envs seal_env prior envs (insert v (unsigned entries) sections)) _ e₁ in
      let same : o ≡ out =
        ap (λ (r : Dict Text EnvSection × Dict Text NameDiff). r.0) (ok-inj e₂) in
      rw (sym same) (
        seal_envs-other envs (insert v (unsigned entries) sections) o ds env rest (ground arith)
        ∙ ground (
          arith,
          lookup-insert env v (unsigned entries) sections,
          text_eq_iff v env,
          text_eq_iff env v,
        ))

  -- An env that it visits has the entries that sealing the env gave, with no signature.
  pub seal_envs-visited :
      (envs : List Text) (sections out : Dict Text EnvSection) (diffs : Dict Text NameDiff)
      (env : Text)
      → seal_envs seal_env prior envs sections ≡ ok (out, diffs)
      → any (text_eq env) envs ≡ true
      → (entries : Dict Text Text) × (seal_env env ≡ ok entries)
        × (lookup env out ≡ some (unsigned entries))
  unfolding seal_envs
  seal_envs-visited [] sections out diffs env e visited = cc
  seal_envs-visited (v ∷ envs) sections out diffs env e visited =
      let (entries, sealed, e₁) = >>=-eq-ok (seal_env v) _ e in
      let ((o, ds), rest, e₂) =
        >>=-eq-ok (seal_envs seal_env prior envs (insert v (unsigned entries) sections)) _ e₁ in
      let same : o ≡ out =
        ap (λ (r : Dict Text EnvSection × Dict Text NameDiff). r.0) (ok-inj e₂) in
      rw (sym same) (elim (Bool-cases (any (text_eq env) envs)) [
        | inl later ↦
            seal_envs-visited envs (insert v (unsigned entries) sections) o ds env rest later
        | inr last ↦
            let here : v ≡ env = ground (arith, text_eq_iff env v) in
            (
              entries,
              rw (sym here) sealed,
              seal_envs-other envs (insert v (unsigned entries) sections) o ds env rest last
                  ∙ ground
                      (arith, lookup-insert env v (unsigned entries) sections, text_eq_iff v env),
            )
      ])

abbrev pub is_there {ℓ} : {A : Type ℓ} → Option A → Bool
is_there none = false
is_there (some a) = true

pub any-keys {ℓ} :
    {V : Type ℓ} (k : Text) (d : Dict Text V) → any (text_eq k) (keys d) ≡ is_there (lookup k d)
unfolding keys lookup
any-keys k [] = refl
any-keys k ((j, v) ∷ d) = ground (arith, any-keys k d, text_eq_iff j k, text_eq_iff k j)

-- How one value is sealed for an env with a recipient.
abbrev pub fresh_entry :
    Age → (Text → Text → ℕ) → Text → ℤ → Text → Text → Text → Text → Result AuthorError Text
fresh_entry age coins human min_level env recip name val =
    encoded env name
      (seal_multi_v4 age (coins env name) val (human ∷ recip ∷ []) human name min_level)

module _ (age : Age) (coins : Text → Text → ℕ) (human : Text) (env_recipient : Dict Text Text)
    (min_level : ℤ) where
  -- What an env's section is, from the values given for it and the prior section.
  abbrev pub SectionOf :
      Text → Option (Dict Text Text) → Option EnvSection → Option EnvSection → Type 0
  SectionOf env none prior sec = sec ≡ prior
  SectionOf env (some vals) prior sec =
      (recip : Text) × (entries : Dict Text Text) × (lookup env env_recipient ≡ some recip)
      × (sec ≡ some (unsigned entries))
      × ((name : Text)
          → EntryOf (fresh_entry age coins human min_level env recip name) (lookup name vals)
              (lookup name (or_nil (section_of prior).entries)) (lookup name entries))

  seal_env_v4-EntryOf :
      (resolved : Dict Text (Dict Text Text)) (prior : Dict Text EnvSection) (env : Text)
      (vals entries : Dict Text Text)
      → seal_env_v4 age coins human env_recipient min_level resolved prior env ≡ ok entries
      → lookup env resolved ≡ some vals
      → (recip : Text) × (lookup env env_recipient ≡ some recip)
        × ((name : Text)
            → EntryOf
                (fresh_entry age coins human min_level env recip name)
                (lookup name vals)
                (lookup name (prior_entries prior env))
                (lookup name entries))
  unfolding seal_env_v4
  seal_env_v4-EntryOf resolved prior env vals entries e v =
      let (recip, r, e₁) =
        require-bind-eq-ok (lookup env env_recipient) (no_env_recipient env) _ _ e in
      (
        recip,
        r,
        λ name.
            seal_entries-EntryOf (fresh_entry age coins human min_level env recip)
              (prior_entries prior env) vals entries name (rw v at (e₁)),
      )

  section_cases :
      (resolved : Dict Text (Dict Text Text)) (prior out : Dict Text EnvSection)
      (diffs : Dict Text NameDiff) (env : Text) (o : Option (Dict Text Text))
      → seal_envs
          (seal_env_v4 age coins human env_recipient min_level resolved prior)
          prior
          (sort_texts (keys resolved))
          prior
        ≡ ok (out, diffs)
      → lookup env resolved ≡ o
      → SectionOf env o (lookup env prior) (lookup env out)
  section_cases resolved prior out diffs env none e absent =
      seal_envs-other (seal_env_v4 age coins human env_recipient min_level resolved prior) prior
        (sort_texts (keys resolved)) prior out diffs env e
        (rw (any-sort_texts (text_eq env) (keys resolved), any-keys env resolved, absent) refl)
  section_cases resolved prior out diffs env (some vals) e found =
      let (entries, sealed, at) =
        seal_envs-visited (seal_env_v4 age coins human env_recipient min_level resolved prior) prior
          (sort_texts (keys resolved)) prior out diffs env e
          (rw (any-sort_texts (text_eq env) (keys resolved), any-keys env resolved, found) refl) in
      let (recip, r, entry) = seal_env_v4-EntryOf resolved prior env vals entries sealed found in
      (recip, entries, r, at, entry)

  -- In the bundle that a v4 seal writes: an env that was given no values keeps the v4 prior's section
  -- as it was (signature included), or stays absent; an env that was given values has a recipient
  -- and an unsigned section, in which a name that was given no value is absent, a name that the
  -- prior section holds keeps its ciphertext verbatim, and any other name holds its value sealed
  -- afresh to the project's key and the env's recipient.
  pub seal_bundle_v4-SectionOf :
      (prior : Option SealedBundle) (resolved : Dict Text (Dict Text Text)) (b : SealedBundle)
      (diffs : Dict Text NameDiff) (env : Text)
      → seal_bundle_v4 age coins prior human env_recipient min_level resolved ≡ ok (b, diffs)
      → SectionOf env
          (lookup env resolved)
          (lookup env (v4_prior prior))
          (lookup env (or_nil b.envs))
  unfolding seal_bundle_v4
  seal_bundle_v4-SectionOf prior resolved b diffs env e =
      let ((out, ds), walked, e₁) =
        >>=-eq-ok
          (seal_envs (seal_env_v4 age coins human env_recipient min_level resolved (v4_prior prior))
            (v4_prior prior) (sort_texts (keys resolved)) (v4_prior prior))
          _ e in
      let same : per_env_bundle (text "v4") out ≡ b =
        ap (λ (r : SealedBundle × Dict Text NameDiff). r.0) (ok-inj e₁) in
      rw (sym same)
        (section_cases resolved (v4_prior prior) out ds env (lookup env resolved) walked refl)
