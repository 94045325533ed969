-- ===== src/Client/Author/Delivery.antt =====
-- sealedbundle_v4.go with materialize.go: what was sealed for an env is what its cluster gets.
use mathlib.Core.Option.{some-injective}
use gitseal.Prelude.{
  ℕ, ◌≡◌, ◌≤◌, refl, true, false, Option, none, some, List, [], ◌∷◌, Text, text, text_key, text_eq,
  text_eq_iff, ℤ, pos, is_empty, any, All, Result, ok, err, arith, ap, sym, ◌∙◌, ok-inj,
}
use gitseal.Prelude.Dict.{Dict, lookup, insert, keys, lookup-nil}
use gitseal.Prelude.Sort.{sort_texts, any-sort_texts}
use gitseal.Strconv.{max_int64}
use gitseal.Base64
use gitseal.Base64.{IsByte}
use gitseal.Age.{Age, AgeLaws, listed}
use gitseal.Crypto.Errors.{Error}
use gitseal.Crypto.Seal.{seal_multi_v4}
use gitseal.Crypto.Open.{unseal_verified_by_key}
use gitseal.Client.Bundle.{SealedBundle, or_nil, env_ciphertext}
use gitseal.Client.Author.{AuthorError, encoded, unsigned}
use gitseal.Client.Author.Reseal.{EntryOf, fresh_entry, is_there, any-keys}
use gitseal.Client.Materialize.{MaterializeInput, decrypt_entries, opener}
use gitseal.Client.Materialize.Laws.{decrypt_entries-other, decrypt_entries-listed}
use gitseal.Client.Author.Values.{IsSealable, All-lookup, sealed_value}

-- When every listed name can be read and opened, the loop returns.
decrypt_entries_total :
    (read : Text → Option Text) (open_one : Text → Result Error (Text × ℤ)) (names : List Text)
    (found : Dict Text Text)
    → All
        (λ name.
          (ct : Text) × (pt : Text) × (level : ℤ) × (read name ≡ some ct)
          × (open_one ct ≡ ok (pt, level)))
        names
    → (out : Dict Text Text) × (decrypt_entries read open_one names found ≡ ok out)
unfolding decrypt_entries
decrypt_entries_total read open_one [] found _ = (found, refl)
decrypt_entries_total read open_one (name ∷ names) found ((ct, pt, level, r, o), hs) =
    let (out, e) = decrypt_entries_total read open_one names (insert name pt found) hs in
    (out, rw (r, o) e)

All-any :
    (P : Text → Type 0) (xs : List Text) → ((x : Text) → any (text_eq x) xs ≡ true → P x) → All P xs
All-any P [] f = tt
All-any P (x ∷ xs) f =
    (f x (ground (arith, text_eq_iff x x)), All-any P xs (λ y h. f y (ground arith)))

is_there-some : {A : Type 0} (o : Option A) → is_there o ≡ true → (a : A) × (o ≡ some a)
is_there-some none h = cc
is_there-some (some a) h = (a, refl)

encoded-eq-ok :
    (env name enc : Text) (r : Result Error Text)
    → encoded env name r ≡ ok enc
    → (ct : Text) × (r ≡ ok ct) × (enc ≡ Base64.encode ct)
encoded-eq-ok env name enc (ok ct) e = (ct, refl, sym (ok-inj e))
encoded-eq-ok env name enc (err x) e = cc

-- A stored entry was given a value, and is that value sealed.
entry_sealed :
    (age : Age) (coins : Text → Text → ℕ) (human recip env name stored : Text) (level : ℤ)
    (val entry : Option Text)
    → EntryOf (fresh_entry age coins human level env recip name) val none entry
    → entry ≡ some stored
    → (v : Text) × (ct : Text) × (val ≡ some v)
      × (seal_multi_v4 age (coins env name) v (human ∷ recip ∷ []) human name level ≡ ok ct)
      × (stored ≡ Base64.encode ct)
entry_sealed age coins human recip env name stored level none entry h e = cc
entry_sealed age coins human recip env name stored level (some v) entry (enc, sealed, at) e =
    let (ct, s, c) = encoded-eq-ok env name enc _ sealed in
    (v, ct, refl, s, some-injective stored enc (sym e ∙ at) ∙ c)

-- What env_ciphertext reads of a section that is there.
env_ciphertext_lem :
    (b : SealedBundle) (env name : Text) (entries : Dict Text Text) (ct : Text)
    → lookup env (or_nil b.envs) ≡ some (unsigned entries)
    → lookup name entries ≡ some (Base64.encode ct)
    → Base64.decode (Base64.encode ct) ≡ some ct
    → env_ciphertext b env name ≡ some ct
unfolding env_ciphertext
env_ciphertext_lem b env name entries ct s e d = rw (s, e, d) refl

pub opener-v4 :
    (age : Age) (b : SealedBundle) (inp : MaterializeInput)
    → text_eq b.version (text "v4") ≡ true
    → is_empty inp.recipient ≡ false
    → opener age b inp ≡ ok (λ ct. (unseal_verified_by_key age ct inp.identity inp.recipient).0)
unfolding opener
opener-v4 age b inp v r = rw (v, r) refl

no_value :
    (f : Text → Result AuthorError Text) (val : Option Text) → EntryOf f val none none → val ≡ none
no_value f none h = refl
no_value f (some v) (enc, sealed, at) = cc

module _ (age : Age) (laws : AgeLaws age) (coins : Text → Text → ℕ)
    (human recip ph pr identity id env : Text) (n : ℕ) (b : SealedBundle)
    (vals entries : Dict Text Text) where
  abbrev opens_as : Text → Result Error (Text × ℤ)
  opens_as ct = (unseal_verified_by_key age ct identity human).0

  -- A stored entry can be read, and opens to the value that was given for its name.
  entry_opens :
      (name stored : Text)
      → 30 ≤ n
      → n ≤ max_int64
      → All IsSealable vals
      → age.parse_recipient human ≡ some ph
      → age.parse_recipient recip ≡ some pr
      → age.parse_identity identity ≡ some id
      → listed (age.recipient_of id) (ph ∷ pr ∷ []) ≡ true
      → lookup env (or_nil b.envs) ≡ some (unsigned entries)
      → EntryOf
          (fresh_entry age coins human (pos n) env recip name)
          (lookup name vals)
          none
          (lookup name entries)
      → lookup name entries ≡ some stored
      → (v : Text) × (ct : Text) × (lookup name vals ≡ some v)
        × (env_ciphertext b env name ≡ some ct)
        × (opens_as ct ≡ ok (v, pos n))
  unfolding unseal_verified_by_key
  entry_opens name stored low high good eh er ei m there h e =
      let (v, ct, given, sealed, text_of) =
        entry_sealed age coins human recip env name stored (pos n) (lookup name vals)
          (lookup name entries) h e in
      let (decoded, opened) =
        sealed_value age laws (coins env name) human recip ph pr name v ct identity id n low high
          (All-lookup vals name v good given) eh er ei m sealed in
      (
        v,
        ct,
        given,
        env_ciphertext_lem b env name entries ct there (e ∙ ap some text_of) decoded,
        opened,
      )

  -- The values that were found are the values that were given.
  same_value :
      (found : Dict Text Text) (name : Text) (o : Option Text)
      → 30 ≤ n
      → n ≤ max_int64
      → All IsSealable vals
      → age.parse_recipient human ≡ some ph
      → age.parse_recipient recip ≡ some pr
      → age.parse_identity identity ≡ some id
      → listed (age.recipient_of id) (ph ∷ pr ∷ []) ≡ true
      → lookup env (or_nil b.envs) ≡ some (unsigned entries)
      → EntryOf
          (fresh_entry age coins human (pos n) env recip name)
          (lookup name vals)
          none
          (lookup name entries)
      → decrypt_entries (env_ciphertext b env) opens_as (sort_texts (keys entries)) [] ≡ ok found
      → lookup name entries ≡ o
      → lookup name found ≡ lookup name vals
  same_value found name none low high good eh er ei m there h dec absent =
      decrypt_entries-other (env_ciphertext b env) opens_as (sort_texts (keys entries)) [] found
        name dec
        (rw (any-sort_texts (text_eq name) (keys entries), any-keys name entries, absent) refl)
      ∙ lookup-nil {K = Text} {V = Text} name
      ∙ sym (
          no_value (fresh_entry age coins human (pos n) env recip name) (lookup name vals)
            (rw absent at (h)))
  same_value found name (some stored) low high good eh er ei m there h dec at =
      let (v, ct, given, r, o) = entry_opens name stored low high good eh er ei m there h at in
      let (ct', pt, level, r', o', out) =
        decrypt_entries-listed (env_ciphertext b env) opens_as (sort_texts (keys entries)) [] found
          name dec
          (rw (any-sort_texts (text_eq name) (keys entries), any-keys name entries, at) refl) in
      let same_ct : ct ≡ ct' = some-injective ct ct' (sym r ∙ r') in
      let same_pt : v ≡ pt =
        ap (λ (p : Text × ℤ). p.0) (ok-inj (sym o ∙ ap opens_as same_ct ∙ o')) in
      out ∙ ap some (sym same_pt) ∙ sym given

  pub decrypts :
      30 ≤ n
      → n ≤ max_int64
      → All IsSealable vals
      → age.parse_recipient human ≡ some ph
      → age.parse_recipient recip ≡ some pr
      → age.parse_identity identity ≡ some id
      → listed (age.recipient_of id) (ph ∷ pr ∷ []) ≡ true
      → lookup env (or_nil b.envs) ≡ some (unsigned entries)
      → ((name : Text)
          → EntryOf
              (fresh_entry age coins human (pos n) env recip name)
              (lookup name vals)
              none
              (lookup name entries))
      → (found : Dict Text Text) × (decrypt_entries
            (env_ciphertext b env)
            opens_as
            (sort_texts (keys entries))
            []
          ≡ ok found)
        × ((name : Text) → lookup name found ≡ lookup name vals)
  decrypts low high good eh er ei m there h =
      let (found, dec) =
        decrypt_entries_total (env_ciphertext b env) opens_as (sort_texts (keys entries)) [] (
          All-any _ (sort_texts (keys entries)) (λ name l.
            let (stored, at) = is_there-some (lookup name entries) (
              sym (any-keys name entries)
              ∙ sym (any-sort_texts (text_eq name) (keys entries))
              ∙ l) in
            let (v, ct, given, r, o) =
              entry_opens name stored low high good eh er ei m there (h name) at in
            (ct, v, pos n, r, o))) in
      (
        found,
        dec,
        λ name.
            same_value found name (lookup name entries) low high good eh er ei m there (h name) dec
              refl,
      )
