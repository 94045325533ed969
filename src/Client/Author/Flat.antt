-- ===== src/Client/Author/Flat.antt =====
-- sealedbundle.go: SealBundle, the flat bundle of v1. `prior` is the bundle that LoadBundle read.
use gitseal.Prelude.{
  ℕ, ◌≡◌, Bool, true, false, not, ◌&&◌, ◌||◌, Option, none, some, [], ◌∷◌, Text, text, text_key, ℤ,
  pos, eqb_ℤ, if◌then◌else◌, Result, ok, ◌>>=◌, ◌>>◌, refuse_if, arith, refuse_if-eq-ok,
}
use gitseal.Prelude.Dict.{Dict, lookup, insert, keys}
use gitseal.Prelude.Sort.{sort_texts}
use gitseal.Age.{Age}
use gitseal.Crypto.Seal.{seal_with_level}
use gitseal.Client.Bundle.{SealedBundle, or_nil}
use gitseal.Client.Author.{AuthorError, other_project, encoded}
use gitseal.Client.Author.Names.{NameDiff, diff_names}

abbrev pub prior_project : Option SealedBundle → ℤ
prior_project none = pos 0
prior_project (some b) = b.project_id

abbrev pub flat_entries : Option SealedBundle → Dict Text Text
flat_entries none = []
flat_entries (some b) = or_nil b.entries

abbrev is_given : Option Text → Bool
is_given none = false
is_given (some v) = true

-- what `merge && prune` leaves: the keys of the given secrets
unfoldable pub prune_entries : Dict Text Text → Dict Text Text → Dict Text Text
prune_entries secrets [] = []
prune_entries secrets ((k, v) ∷ d) =
    let rest = prune_entries secrets d in
    if is_given (lookup k secrets) then (k, v) ∷ rest else rest

module _ (age : Age) (coins : Text → ℕ) (recipient : Text) (project_id min_level : ℤ) where
  -- the loop that seals each value over the entries so far
  unfoldable pub seal_flat : Dict Text Text → Dict Text Text → Result AuthorError (Dict Text Text)
  seal_flat [] entries = ok entries
  seal_flat ((name, val) ∷ secrets) entries = do
    enc ← encoded [] name (seal_with_level age (coins name) val recipient project_id name min_level)
    seal_flat secrets (insert name enc entries)

  -- SealBundle: the bundle that is written and the difference of the names
  unfoldable pub seal_bundle :
      Option SealedBundle
      → Dict Text Text
      → Bool
      → Bool
      → Result AuthorError (SealedBundle × NameDiff)
  unfolding seal_flat prune_entries diff_names
  seal_bundle prior secrets merge prune = do
    refuse_if
        (merge
          && (not (eqb_ℤ (prior_project prior) (pos 0))
              && not (eqb_ℤ (prior_project prior) project_id)))
        (other_project (prior_project prior) project_id)
    sealed ← seal_flat secrets (if merge then flat_entries prior else [])
    let entries = if merge && prune then prune_entries secrets sealed else sealed
    ok (
      record {
        kind = text "SealedBundle";
        version = text "v1";
        project_id = project_id;
        min_access_level = min_level;
        recipient = recipient;
        entries = some entries;
        recipients = none;
        envs = none;
      },
      diff_names (keys (flat_entries prior)) (sort_texts (keys entries)),
    )

  -- Entries are merged only into a bundle of the same project, or of none.
  pub seal_bundle_merged :
      (b : SealedBundle) (secrets : Dict Text Text) (prune : Bool) (r : SealedBundle × NameDiff)
      → seal_bundle (some b) secrets true prune ≡ ok r
      → (eqb_ℤ b.project_id (pos 0) || eqb_ℤ b.project_id project_id) ≡ true
  unfolding seal_bundle
  seal_bundle_merged b secrets prune r e =
      let (h, _) =
        refuse_if-eq-ok (not (eqb_ℤ b.project_id (pos 0)) && not (eqb_ℤ b.project_id project_id))
          (other_project b.project_id project_id) _ _ e in
      ground arith
