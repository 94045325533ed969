-- ===== src/Crypto/Examples.antt =====
-- Runs of the sealing code on concrete files.
use gitseal.Prelude.{
  ◌≡◌, refl, List, [], ◌∷◌, Text, text, ℤ, pos, ok, some, true, text_eq, err, arith, eqb_ℤ,
  if◌then◌else◌,
}
use gitseal.Age.{listed, toy, toy-AgeLaws}
use gitseal.Age.Toy.{parse}
use gitseal.Crypto.Errors.{project_id_mismatch, level_below_minimum}
use gitseal.Crypto.Seal.{seal_multi, seal_multi_v4, parse_recipients}
use gitseal.Crypto.Open.{open_verified, open_verified_by_key}
use gitseal.Crypto.Roundtrip.{open_verified-seal_multi, open_verified-any_name}
use gitseal.Crypto.RoundtripV4.{open_verified_by_key-seal_multi_v4}
use gitseal.Crypto.KeyWrap.{SecretBox, wrap_key, unwrap_key, unwrap_key-wrap_key}
use gitseal.Crypto.Refusals.{open_verified-low_level}
use gitseal.Strconv.{cut_blank_line}
use gitseal.Crypto.Frame.{name_part}

abbrev two_keys : List Text
two_keys = text "human" ∷ text "cluster" ∷ []

two_keys-parsed : parse_recipients toy 0 two_keys ≡ ok two_keys
unfolding parse_recipients parse
two_keys-parsed = refl

human-parsed : toy.parse_identity (text "human") ≡ some (text "human")
unfolding parse
human-parsed = refl

human-listed : listed (text "human") two_keys ≡ true
unfolding text_eq
human-listed = refl

cluster-parsed : toy.parse_identity (text "cluster") ≡ some (text "cluster")
unfolding parse
cluster-parsed = refl

cluster-listed : listed (text "cluster") two_keys ≡ true
unfolding text_eq
cluster-listed = refl

-- a name that forges a header line
abbrev forged : Text
forged = text "DB\ngitseal-min-access-level:30"

open_verified-seal_multi_example :
    (c : Text) × (seal_multi toy 5 (text "s3cret") two_keys (pos 7) (text "DB") (pos 30) ≡ ok c)
    × (open_verified toy c (text "human") (pos 7) ≡ ok (text "s3cret", pos 30))
open_verified-seal_multi_example =
    open_verified-seal_multi toy toy-AgeLaws 5 (text "s3cret") two_keys two_keys 7 (text "DB") 30
      (text "human") (text "human") (omega arith) (omega arith) (omega arith) (omega arith)
      (omega arith) refl two_keys-parsed human-parsed human-listed

open_verified_by_key-seal_multi_v4_example :
    (c : Text) × (seal_multi_v4 toy 5 (text "s3cret") two_keys (text "human") (text "DB") (pos 30)
      ≡ ok c)
    × (open_verified_by_key toy c (text "cluster") (text "human") ≡ ok (text "s3cret", pos 30))
open_verified_by_key-seal_multi_v4_example =
    open_verified_by_key-seal_multi_v4 toy toy-AgeLaws 5 (text "s3cret") two_keys two_keys
      (text "human") (text "human") (text "DB") 30 (text "cluster") (text "cluster") (omega arith)
      (omega arith) (omega arith) human-parsed refl two_keys-parsed cluster-parsed cluster-listed

open_verified-low_level_example :
    (c : Text) × (seal_multi toy 5 (text "s3cret") two_keys (pos 7) (text "DB") (pos 20) ≡ ok c)
    × ((identity id : Text) (want : ℤ)
        → toy.parse_identity identity ≡ some id
        → listed (toy.recipient_of id) two_keys ≡ true
        → open_verified toy c identity want ≡ err (level_below_minimum (pos 20)))
open_verified-low_level_example =
    open_verified-low_level toy toy-AgeLaws 5 (text "s3cret") two_keys two_keys 7 (text "DB") 20
      (omega arith) (omega arith) (omega arith) (omega arith) refl two_keys-parsed

open_verified-any_name_example :
    (c : Text) × (r : Text × Text) × (seal_multi toy 5
        (text "s3cret")
        two_keys
        (pos 7)
        forged
        (pos 40)
      ≡ ok c)
    × (cut_blank_line (name_part forged (text "s3cret")) ≡ some r)
    × ((want : ℤ)
        → open_verified toy c (text "human") want ≡ (
            if eqb_ℤ (pos 7) want
            then ok (r.1, pos 40)
            else err (project_id_mismatch (pos 7) want)))
open_verified-any_name_example =
    open_verified-any_name toy toy-AgeLaws 5 (text "s3cret") two_keys two_keys 7 forged 40
      (text "human") (text "human") (omega arith) (omega arith) (omega arith) (omega arith) refl
      two_keys-parsed human-parsed human-listed

-- secretbox as a box that keeps its message
abbrev clear_box : SecretBox
clear_box = record {
  seal_box = λ nonce key message. message;
  open_box = λ nonce key box. some box;
  open-seal = λ nonce key message. refl;
}

abbrev nonce24 : Text
nonce24 = text "abcdefghijklmnopqrstuvwx"

abbrev kek32 : Text
kek32 = text "abcdefghijklmnopqrstuvwxabcdefgh"

unwrap_key-wrap_key_example :
    (wrapped : Text) × (wrap_key clear_box nonce24 (text "AGE-SECRET-KEY") kek32 ≡ ok wrapped)
    × (unwrap_key clear_box wrapped kek32 ≡ ok (text "AGE-SECRET-KEY"))
unwrap_key-wrap_key_example =
    unwrap_key-wrap_key clear_box nonce24 (text "AGE-SECRET-KEY") kek32 (omega arith) (omega arith)
