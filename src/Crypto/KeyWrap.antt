-- ===== src/Crypto/KeyWrap.antt =====
-- crypto.go: the KEK envelope. golang.org/x/crypto's secretbox is an interface; a nonce is drawn by
-- the caller, and is 24 bytes long.
use mathlib.Core.Path.{subst}
use gitseal.Prelude.{
  ℕ, zero, suc, ◌≡◌, refl, not, Option, some, [], ◌∷◌, ◌++◌, Text, length, eqb, ltb, Result, ok,
  ◌>>◌, refuse_if, require, ap, arith, length-append,
}
use gitseal.Crypto.Errors.{Error, bad_kek_length, wrapped_too_short, unwrap_failed}

pub record SecretBox : Type 0 where
  -- nonce, key and message; Seal appends to its first argument, which is empty here
  pub seal_box : Text → Text → Text → Text
  pub open_box : Text → Text → Text → Option Text
  pub open-seal :
      (nonce key message : Text) → open_box nonce key (seal_box nonce key message) ≡ some message

abbrev pub nonce_size : ℕ
nonce_size = 24

abbrev pub kek_size : ℕ
kek_size = 32

unfoldable pub take : ℕ → Text → Text
take zero s = []
take (suc n) [] = []
take (suc n) (c ∷ s) = c ∷ take n s

unfoldable pub drop : ℕ → Text → Text
drop zero s = s
drop (suc n) [] = []
drop (suc n) (c ∷ s) = drop n s

module _ (box : SecretBox) where
  unfoldable pub wrap_key : Text → Text → Text → Result Error Text
  wrap_key nonce secret kek = do
    refuse_if (not (eqb (length kek) kek_size)) (bad_kek_length (length kek))
    ok (nonce ++ box.seal_box nonce kek secret)

  unfoldable pub unwrap_key : Text → Text → Result Error Text
  unwrap_key wrapped kek = do
    refuse_if (not (eqb (length kek) kek_size)) (bad_kek_length (length kek))
    refuse_if (ltb (length wrapped) nonce_size) wrapped_too_short
    require (box.open_box (take nonce_size wrapped) kek (drop nonce_size wrapped)) unwrap_failed

take-append : (nonce s : Text) → take (length nonce) (nonce ++ s) ≡ nonce
unfolding take
take-append [] s = refl
take-append (c ∷ nonce) s = ap (λ (t : Text). c ∷ t) (take-append nonce s)

drop-append : (nonce s : Text) → drop (length nonce) (nonce ++ s) ≡ s
unfolding drop
drop-append [] s = refl
drop-append (c ∷ nonce) s = drop-append nonce s

take_nonce : (nonce s : Text) → length nonce ≡ nonce_size → take nonce_size (nonce ++ s) ≡ nonce
take_nonce nonce s n = subst (λ (k : ℕ). take k (nonce ++ s) ≡ nonce) n (take-append nonce s)

drop_nonce : (nonce s : Text) → length nonce ≡ nonce_size → drop nonce_size (nonce ++ s) ≡ s
drop_nonce nonce s n = subst (λ (k : ℕ). drop k (nonce ++ s) ≡ s) n (drop-append nonce s)

-- A key wrapped under a key of 32 bytes, with any nonce of 24 bytes, is unwrapped to itself.
pub unwrap_key-wrap_key :
    (box : SecretBox) (nonce secret kek : Text)
    → length nonce ≡ nonce_size
    → length kek ≡ kek_size
    → (wrapped : Text) × (wrap_key box nonce secret kek ≡ ok wrapped)
      × (unwrap_key box wrapped kek ≡ ok secret)
unfolding wrap_key unwrap_key
unwrap_key-wrap_key box nonce secret kek n k =
    let sealed = box.seal_box nonce kek secret in
    (
      nonce ++ sealed,
      ground arith,
      ground (
        arith,
        take_nonce nonce sealed n,
        drop_nonce nonce sealed n,
        length-append nonce sealed,
        box.open-seal nonce kek secret,
      ),
    )
