-- ===== src/Broker/Challenge/Runs.antt =====
-- challenge.go: any sequence of requests to the nonce store, in the order in which its mutex lets them in.
use gitseal.Prelude.{
  ℕ, ◌+◌, ◌≤◌, Bool, true, false, ◌&&◌, Option, none, some, List, [], ◌∷◌, Text, text_key,
  text_eq_iff, arith, ◌==◌,
}
use gitseal.Prelude.Dict.{Dict, NodupKeys, lookup, lookup-insert}
use gitseal.Broker.State.{ChallengeStore}
use gitseal.Broker.Challenge.{make_room, store_nonce, issue, consume}
use gitseal.Broker.Challenge.SingleUse.{
  IsValid, is_live, sweep-lookup, consume-is_live, consume-lookup, consume-IsValid, issue-IsValid,
}

-- A request: Issue with its two readings of the clock, or Consume.
pub data Request : Type 0 where
  to_issue : ℕ → ℕ → Text → Request
  to_consume : ℕ → Text → Request

unfoldable pub serve : Request → ChallengeStore → ChallengeStore
serve (to_issue sweep_at issued_at nonce) c = (issue sweep_at issued_at nonce c).0
serve (to_consume now nonce) c = (consume now nonce c).0

unfoldable pub serve_all : List Request → ChallengeStore → ChallengeStore
unfolding serve
serve_all [] c = c
serve_all (r ∷ rs) c = serve_all rs (serve r c)

abbrev pub one : Bool → ℕ
one true = 1
one false = 0

abbrev pub is_some {ℓ} : {A : Type ℓ} → Option A → Bool
is_some none = false
is_some (some a) = true

-- Whether a request gives out the nonce, and whether it is answered that the nonce is good.
unfoldable pub gives : Text → Request → ChallengeStore → Bool
gives j (to_issue sweep_at issued_at nonce) c =
    nonce == j && is_some (issue sweep_at issued_at nonce c).1
gives j (to_consume now nonce) c = false

unfoldable pub spends : Text → Request → ChallengeStore → Bool
spends j (to_issue sweep_at issued_at nonce) c = false
spends j (to_consume now nonce) c = nonce == j && (consume now nonce c).1

unfoldable pub count_given : Text → List Request → ChallengeStore → ℕ
unfolding gives
count_given j [] c = 0
count_given j (r ∷ rs) c = one (gives j r c) + count_given j rs (serve r c)

unfoldable pub count_spent : Text → List Request → ChallengeStore → ℕ
unfolding spends
count_spent j [] c = 0
count_spent j (r ∷ rs) c = one (spends j r c) + count_spent j rs (serve r c)

abbrev pub is_held : Text → ChallengeStore → Bool
is_held j c = is_some (lookup j c.expiries)

serve-IsValid : (r : Request) (c : ChallengeStore) → IsValid c → IsValid (serve r c)
unfolding serve
serve-IsValid (to_issue sweep_at issued_at nonce) c v = issue-IsValid sweep_at issued_at nonce c v
serve-IsValid (to_consume now nonce) c v = consume-IsValid now nonce c v

make_room_held :
    (sweep_at : ℕ) (j : Text) (c : ChallengeStore)
    → NodupKeys c.expiries
    → one (is_some (lookup j (make_room sweep_at c))) ≤ one (is_held j c)
unfolding make_room
make_room_held sweep_at j c u = ground (arith, sweep-lookup sweep_at j c.expiries u)

store_nonce_balance :
    (issued_at : ℕ) (j nonce : Text) (c : ChallengeStore) (held : Dict Text ℕ)
    → one (is_held j (store_nonce issued_at nonce c held).0)
      ≤ one (nonce == j && is_some (store_nonce issued_at nonce c held).1)
        + one (is_some (lookup j held))
unfolding store_nonce
store_nonce_balance issued_at j nonce c held =
    ground (arith, lookup-insert j nonce (issued_at + c.ttl) held)

-- One request: what is spent and still held is not more than what is given out and was held.
serve_balance :
    (r : Request) (j : Text) (c : ChallengeStore)
    → IsValid c
    → one (spends j r c) + one (is_held j (serve r c)) ≤ one (gives j r c) + one (is_held j c)
unfolding serve gives spends issue IsValid is_live
serve_balance (to_issue sweep_at issued_at nonce) j c (u, small) = omega (
  arith,
  store_nonce_balance issued_at j nonce c (make_room sweep_at c),
  make_room_held sweep_at j c u,
)
serve_balance (to_consume now nonce) j c v =
    ground (arith, consume-is_live now nonce c, consume-lookup now j nonce c, text_eq_iff nonce j)

-- Over any sequence of requests, from any well-formed store: the store stays well-formed (each nonce
-- once, and never more than max_nonces), and a nonce is found good at most as often as it is given
-- out, counting the copy that was held at the start and not the one that is held at the end.
pub serve_all_balance :
    (rs : List Request) (j : Text) (c : ChallengeStore)
    → IsValid c
    → IsValid (serve_all rs c)
      × (count_spent j rs c + one (is_held j (serve_all rs c))
          ≤ count_given j rs c + one (is_held j c))
unfolding serve_all count_spent count_given
serve_all_balance [] j c v = (v, omega arith)
serve_all_balance (r ∷ rs) j c v =
    let (valid, rest) = serve_all_balance rs j (serve r c) (serve-IsValid r c v) in
    (valid, omega (arith, rest, serve_balance r j c v))
