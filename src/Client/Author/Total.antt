-- ===== src/Client/Author/Total.antt =====
-- sealedbundle_v4.go: when sealing a bundle succeeds.
use gitseal.Prelude.{
  ℕ, ◌≡◌, ◌<◌, refl, Option, none, some, List, [], ◌∷◌, Text, text, text_key, pos, All, Result, ok,
  arith,
}
use gitseal.Prelude.Dict.{Dict, lookup, insert, keys}
use gitseal.Prelude.Sort.{sort_texts, insert_sorted}
use gitseal.Base64
use gitseal.Age.{Age, AgeLaws}
use gitseal.Crypto.Seal.{envelope_v4}
use gitseal.Crypto.RoundtripV4.{seal_multi_v4_lem}
use gitseal.Client.Bundle.{EnvSection, SealedBundle}
use gitseal.Client.Author.{
  AuthorError, carried_or, seal_entries, unsigned, prior_entries, seal_envs, seal_env_v4, v4_prior,
  vals_of, seal_bundle_v4, per_env_bundle,
}
use gitseal.Client.Author.Names.{NameDiff, diff_names}
use gitseal.Client.Author.Reseal.{fresh_entry}
use gitseal.Client.Author.Values.{parse_recipients-pair}

seal_entries_total :
    (fresh : Text → Text → Result AuthorError Text) (prior vals : Dict Text Text)
    → ((name val : Text) → (enc : Text) × (fresh name val ≡ ok enc))
    → (entries : Dict Text Text) × (seal_entries fresh prior vals ≡ ok entries)
unfolding seal_entries
seal_entries_total fresh prior [] f = ([], refl)
seal_entries_total fresh prior ((name, val) ∷ vals) f =
    let (entries, e) = seal_entries_total fresh prior vals f in
    let (enc, carried) = carried_total (lookup name prior) (f name val) in
    (insert name enc entries, rw (carried, e) refl)
  where
    carried_total :
        (o : Option Text)
        → ((enc : Text) × (fresh name val ≡ ok enc))
        → (enc : Text) × (carried_or o (fresh name val) ≡ ok enc)
    carried_total none h = h
    carried_total (some p) h = (p, refl)

seal_envs_total :
    (seal_env : Text → Result AuthorError (Dict Text Text)) (prior : Dict Text EnvSection)
    (envs : List Text) (sections : Dict Text EnvSection)
    → All (λ env. (entries : Dict Text Text) × (seal_env env ≡ ok entries)) envs
    → (out : Dict Text EnvSection × Dict Text NameDiff) × (seal_envs seal_env prior envs sections
        ≡ ok out)
unfolding seal_envs
seal_envs_total seal_env prior [] sections _ = ((sections, []), refl)
seal_envs_total seal_env prior (env ∷ envs) sections ((entries, e), hs) =
    let ((out, diffs), rest) =
      seal_envs_total seal_env prior envs (insert env (unsigned entries) sections) hs in
    let before = sort_texts (keys (prior_entries prior env)) in
    ((out, insert env (diff_names before (sort_texts (keys entries))) diffs), rw (e, rest) refl)

All-insert_sorted :
    (P : Text → Type 0) (s : Text) (ts : List Text) → P s → All P ts → All P (insert_sorted s ts)
unfolding insert_sorted
All-insert_sorted P s [] p _ = (p, tt)
All-insert_sorted P s (t ∷ ts) p (q, qs) = ground (arith, All-insert_sorted P s ts p qs)

pub All-sort_texts : (P : Text → Type 0) (ts : List Text) → All P ts → All P (sort_texts ts)
unfolding sort_texts
All-sort_texts P [] _ = tt
All-sort_texts P (t ∷ ts) (p, ps) = All-insert_sorted P t (sort_texts ts) p (All-sort_texts P ts ps)

-- An env has a recipient that parses.
abbrev pub HasRecipient : Age → Dict Text Text → Text → Type 0
HasRecipient age env_recipient env =
    (recip : Text) × (parsed : Text) × (lookup env env_recipient ≡ some recip)
    × (age.parse_recipient recip ≡ some parsed)

module _ (age : Age) (laws : AgeLaws age) (coins : Text → Text → ℕ) where
  fresh_total :
      (human ph recip pr env name val : Text) (n : ℕ)
      → 0 < n
      → age.parse_recipient human ≡ some ph
      → age.parse_recipient recip ≡ some pr
      → (enc : Text) × (fresh_entry age coins human (pos n) env recip name val ≡ ok enc)
  fresh_total human ph recip pr env name val n positive eh er =
      let (ct, e) =
        laws.encrypts (coins env name) (ph ∷ pr ∷ []) (envelope_v4 val human name (pos n)) refl in
      (
        Base64.encode ct,
        rw
            (
              seal_multi_v4_lem age laws (coins env name) val (human ∷ recip ∷ []) (ph ∷ pr ∷ [])
                  human ph name n positive eh refl
                  (parse_recipients-pair age human recip ph pr eh er),
              e,
            )
            refl,
      )

  seal_env_total :
      (human ph : Text) (env_recipient : Dict Text Text) (n : ℕ)
      (resolved : Dict Text (Dict Text Text)) (prior : Dict Text EnvSection) (env : Text)
      → 0 < n
      → age.parse_recipient human ≡ some ph
      → HasRecipient age env_recipient env
      → (entries : Dict Text Text) × (seal_env_v4 age coins human env_recipient
            (pos n)
            resolved
            prior
            env
          ≡ ok entries)
  unfolding seal_env_v4
  seal_env_total human ph env_recipient n resolved prior env positive eh (recip, pr, r, er) =
      let (entries, e) =
        seal_entries_total (fresh_entry age coins human (pos n) env recip) (prior_entries prior env)
          (vals_of (lookup env resolved))
          (λ name val. fresh_total human ph recip pr env name val n positive eh er) in
      (entries, rw r e)

  -- With a positive level, a project key that parses, and a recipient that parses for each env that
  -- is given values, sealing a v4 bundle succeeds, whatever the values and the prior bundle.
  pub seal_bundle_v4_total :
      (prior : Option SealedBundle) (human ph : Text) (env_recipient : Dict Text Text) (n : ℕ)
      (resolved : Dict Text (Dict Text Text))
      → 0 < n
      → age.parse_recipient human ≡ some ph
      → All (HasRecipient age env_recipient) (keys resolved)
      → (r : SealedBundle × Dict Text NameDiff) × (seal_bundle_v4 age coins prior human
            env_recipient
            (pos n)
            resolved
          ≡ ok r)
  unfolding seal_bundle_v4
  seal_bundle_v4_total prior human ph env_recipient n resolved positive eh hs =
      let ((envs, diffs), e) =
        seal_envs_total
          (seal_env_v4 age coins human env_recipient (pos n) resolved (v4_prior prior))
          (v4_prior prior) (sort_texts (keys resolved)) (v4_prior prior)
          (All-sort_texts _ (keys resolved) (All-map (keys resolved) hs)) in
      ((per_env_bundle (text "v4") envs, diffs), rw e refl)
    where
      All-map :
          (envs : List Text)
          → All (HasRecipient age env_recipient) envs
          → All
              (λ env.
                (entries : Dict Text Text) × (seal_env_v4 age coins human env_recipient
                    (pos n)
                    resolved
                    (v4_prior prior)
                    env
                  ≡ ok entries))
              envs
      All-map [] _ = tt
      All-map (env ∷ envs) (r, rs) = (
        seal_env_total human ph env_recipient n resolved (v4_prior prior) env positive eh r,
        All-map envs rs,
      )
