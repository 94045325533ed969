-- ===== src/Client/KeyFile/Laws.antt =====
-- keyfile.go: what a key file gives back, and what a keystore holds.
use mathlib.Core.Option.{some-injective}
use gitseal.Prelude.{
  ◌≡◌, refl, Bool, true, false, Option, none, some, List, [], ◌∷◌, Text, any, ◌⊎◌, inl, inr, ◌==◌,
  text_eq, text_eq_refl, int_key, ℤ, is_empty, All, if◌then◌else◌, Result, ok, err, arith, ap, sym,
  ◌∙◌, >>=-eq-ok, require-bind-eq-ok, ok-inj,
}
use gitseal.Prelude.Dict.{Dict, lookup, lookup-insert, lookup-nil}
use gitseal.Prelude.Sort.{sort_texts, any-sort_texts}
use gitseal.Base64
use gitseal.Base64.{IsByte}
use gitseal.Age.{Age}
use gitseal.Crypto.KeyWrap.{SecretBox}
use gitseal.Client.KeyFile.{
  KeyFile, KeyFileError, bad_identity, recipient_mismatch, new_key_file_v2, raw_identity, identity,
  parse_key_file, verify, add_identity, add_key_file, load_names, key_file_names, load_key_dir,
}

module _ (age : Age) (box : SecretBox) where
  -- A v2 key file that is made for an identity that age parses gives this identity back, and is
  -- verified exactly for the identity's own recipient.
  pub verify-new_key_file_v2 :
      (project_id : ℤ) (raw id expected : Text)
      → All IsByte raw
      → age.parse_identity raw ≡ some id
      → (identity age box (new_key_file_v2 project_id raw) ≡ ok raw)
        × (verify age box (new_key_file_v2 project_id raw) expected
            ≡ (if text_eq (age.recipient_of id) expected then ok tt else err recipient_mismatch))
  unfolding identity verify raw_identity new_key_file_v2 text_eq
  verify-new_key_file_v2 project_id raw id expected bytes parsed =
      rw (Base64.Roundtrip.decode-encode raw bytes, parsed) (refl, rw parsed (ground arith))

  identity_parses :
      (kf : KeyFile) (id : Text)
      → identity age box kf ≡ ok id
      → (parsed : Text) × (age.parse_identity id ≡ some parsed)
  unfolding identity
  identity_parses kf id e =
      let (raw, _, e₁) = >>=-eq-ok (raw_identity age box kf) _ e in
      let (parsed, p, e₂) = require-bind-eq-ok (age.parse_identity raw) bad_identity _ _ e₁ in
      (parsed, rw (ok-inj e₂) at (p))

  -- Where an identity of the keystore comes from: a listed file that parses, for this project, and
  -- whose identity it is.
  abbrev pub FromFile : (Text → Option KeyFile) → List Text → ℤ → Text → Type 0
  FromFile read names project_id id =
      (name : Text) × (kf : KeyFile) × (any (text_eq name) names ≡ true)
      × (parse_key_file age box (read name) ≡ ok kf)
      × (kf.project_id ≡ project_id)
      × (identity age box kf ≡ ok id)

  later_file :
      (read : Text → Option KeyFile) (n : Text) (names : List Text) (project_id : ℤ) (id : Text)
      → FromFile read names project_id id
      → FromFile read (n ∷ names) project_id id
  later_file read n names project_id id (name, kf, m, p, q, i) = (name, kf, ground arith, p, q, i)

  -- One file: an identity of the keystore afterwards was there, or is the file's.
  added :
      (read : Text → Option KeyFile) (n : Text) (ids : Dict ℤ Text) (skipped : List Text)
      (project_id : ℤ) (id : Text) (r : Result KeyFileError KeyFile)
      → parse_key_file age box (read n) ≡ r
      → lookup project_id (add_key_file age box n r (ids, skipped)).0 ≡ some id
      → (lookup project_id ids ≡ some id)
        ⊎ ((kf : KeyFile) × (parse_key_file age box (read n) ≡ ok kf)
            × (kf.project_id ≡ project_id)
            × (identity age box kf ≡ ok id))
  added read n ids skipped project_id id (err e) p h = inl h
  added read n ids skipped project_id id (ok kf) p h = by_identity (identity age box kf) refl h
    where
      by_identity :
          (r : Result KeyFileError Text)
          → identity age box kf ≡ r
          → lookup project_id (add_identity age box n kf.project_id r (ids, skipped)).0 ≡ some id
          → (lookup project_id ids ≡ some id)
            ⊎ ((k : KeyFile) × (parse_key_file age box (read n) ≡ ok k)
                × (k.project_id ≡ project_id)
                × (identity age box k ≡ ok id))
      by_identity (err e) i h = inl h
      by_identity (ok found) i h =
          inserted (kf.project_id == project_id) refl
            (rw (lookup-insert project_id kf.project_id found ids) at (h))
        where
          inserted :
              (b : Bool)
              → (kf.project_id == project_id) ≡ b
              → (if b then some found else lookup project_id ids) ≡ some id
              → (lookup project_id ids ≡ some id)
                ⊎ ((k : KeyFile) × (parse_key_file age box (read n) ≡ ok k)
                    × (k.project_id ≡ project_id)
                    × (identity age box k ≡ ok id))
          inserted true t e = inr (
            kf,
            p,
            (int_key.beq_iff kf.project_id project_id).0 t,
            i ∙ ap ok (some-injective found id e),
          )
          inserted false t e = inl e

  load_names-FromFile :
      (read : Text → Option KeyFile) (names : List Text) (ids : Dict ℤ Text) (skipped : List Text)
      (project_id : ℤ) (id : Text)
      → lookup project_id (load_names age box read names (ids, skipped)).0 ≡ some id
      → (lookup project_id ids ≡ some id) ⊎ FromFile read names project_id id
  unfolding load_names
  load_names-FromFile read [] ids skipped project_id id h = inl h
  load_names-FromFile read (n ∷ names) ids skipped project_id id h =
      let acc = add_key_file age box n (parse_key_file age box (read n)) (ids, skipped) in
      elim (load_names-FromFile read names acc.0 acc.1 project_id id h) [
        | inl before ↦
            elim (added read n ids skipped project_id id (parse_key_file age box (read n)) refl
              before) [
                | inl old ↦ inl old
                | inr (kf, p, q, i) ↦ inr (n, kf, ground (arith, text_eq_refl n), p, q, i)
              ]
        | inr found ↦ inr (later_file read n names project_id id found)
      ]

  -- Every identity of a keystore that a directory gives is the identity, which age parses, of a key
  -- file listed there whose content parses and names this project; a file that does not parse adds
  -- nothing.
  pub load_key_dir-FromFile :
      (read : Text → Option KeyFile) (entries : List (Text × Bool)) (ids : Dict ℤ Text)
      (skipped : List Text) (project_id : ℤ) (id : Text)
      → load_key_dir age box read entries ≡ (some ids, skipped)
      → lookup project_id ids ≡ some id
      → FromFile read (key_file_names entries) project_id id
        × ((parsed : Text) × (age.parse_identity id ≡ some parsed))
  unfolding load_key_dir
  load_key_dir-FromFile read entries ids skipped project_id id e h =
      let names = sort_texts (key_file_names entries) in
      let all = load_names age box read names ([], []) in
      let same : ids ≡ all.0 = kept all.0 (ap (λ (r : Option (Dict ℤ Text) × List Text). r.0) e) in
      elim (load_names-FromFile read names [] [] project_id id (rw same at (h))) [
        | inl nothing ↦ (let gone = lookup-nil {K = ℤ} {V = Text} project_id in cc)
        | inr (name, kf, m, p, q, i) ↦ (
          (name, kf, sym (any-sort_texts (text_eq name) (key_file_names entries)) ∙ m, p, q, i),
          parses kf i,
        )
      ]
    where
      kept : (d : Dict ℤ Text) → (if is_empty d then none else some d) ≡ some ids → ids ≡ d
      kept [] f = cc
      kept (x ∷ d) f = sym (some-injective (x ∷ d) ids f)

      parses :
          (kf : KeyFile)
          → identity age box kf ≡ ok id
          → (parsed : Text) × (age.parse_identity id ≡ some parsed)
      parses kf f = identity_parses kf id f
