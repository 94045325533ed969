-- ===== src/Broker/Challenge.antt =====
-- challenge.go: the nonce store and its handlers.
pub mod SingleUse
pub mod Runs
use gitseal.Prelude.{
  ℕ, suc, ◌+◌, ◌≡◌, refl, Bool, true, false, not, ◌||◌, Option, none, some, List, [], ◌∷◌, Text,
  text_eq, text_key, is_empty, length, ltb, leb, eqb, if◌then◌else◌,
}
use gitseal.Prelude.Dict.{Dict, lookup, insert, erase}
use gitseal.Broker.State.{ChallengeStore}

abbrev pub max_nonces : ℕ
max_nonces = 4096

abbrev pub new_challenge_store : ℕ → ChallengeStore
new_challenge_store ttl = record { ttl = ttl; expiries = [] }

-- The sweep of Issue: what has expired by `now` is deleted.
unfoldable pub sweep : ℕ → Dict Text ℕ → Dict Text ℕ
sweep now [] = []
sweep now ((nonce, exp) ∷ n) =
    let rest = sweep now n in if ltb exp now then rest else (nonce, exp) ∷ rest

-- at capacity only
unfoldable pub make_room : ℕ → ChallengeStore → Dict Text ℕ
unfolding sweep
make_room sweep_at c =
    if leb max_nonces (length c.expiries) then sweep sweep_at c.expiries else c.expiries

unfoldable pub store_nonce : ℕ → Text → ChallengeStore → Dict Text ℕ → ChallengeStore × Option Text
store_nonce issued_at nonce c held =
    if leb max_nonces (length held)
    then (record c { expiries = held }, none)
    else (record c { expiries = insert nonce (issued_at + c.ttl) held }, some nonce)

-- Issue, for a nonce drawn by the caller; the clock is read once before the sweep and once for the
-- expiry. `none` is "", the refusal at capacity.
unfoldable pub issue : ℕ → ℕ → Text → ChallengeStore → ChallengeStore × Option Text
unfolding make_room store_nonce
issue sweep_at issued_at nonce c = store_nonce issued_at nonce c (make_room sweep_at c)

abbrev consumed : ℕ → Text → ChallengeStore → Option ℕ → ChallengeStore × Bool
consumed now nonce c none = (c, false)
consumed now nonce c (some exp) =
    (record c { expiries = erase nonce c.expiries }, not (ltb exp now))

-- Consume: single use, whatever the expiry says.
unfoldable pub consume : ℕ → Text → ChallengeStore → ChallengeStore × Bool
consume now nonce c = consumed now nonce c (lookup nonce c.expiries)

-- A handler's answer: the status code and the body that matters.
pub record Answer : Type 0 where
  pub status : ℕ
  pub body : Text

abbrev pub answer : ℕ → Answer
answer status = record { status = status; body = [] }

abbrev challenge_answer : Option Text → Answer
challenge_answer none = answer 429
challenge_answer (some nonce) = record { status = 200; body = nonce }

-- HandleChallenge
unfoldable pub handle_challenge :
    ℕ → ℕ → Text → Option ChallengeStore → Option ChallengeStore × Answer
unfolding issue
handle_challenge sweep_at issued_at nonce none = (none, answer 501)
handle_challenge sweep_at issued_at nonce (some c) =
    let (c', issued) = issue sweep_at issued_at nonce c in (some c', challenge_answer issued)

-- The parts of a request to /v1/challenge/consume that its handler reads; `body` is the decoded
-- nonce, `none` where the body does not decode.
pub record ConsumeRequest : Type 0 where
  pub is_post : Bool
  pub register_token : Text
  pub body : Option Text

abbrev consume_answer : Bool → Answer
consume_answer true = answer 200
consume_answer false = answer 409

abbrev consume_body : ℕ → Option Text → ChallengeStore → Option ChallengeStore × Answer
consume_body now none c = (some c, answer 400)
consume_body now (some nonce) c =
    if is_empty nonce
    then (some c, answer 400)
    else (let (c', done) = consume now nonce c in (some c', consume_answer done))

-- HandleChallengeConsume, on the replica that holds `store` and the shared token `expected`.
unfoldable pub handle_challenge_consume :
    ℕ → Text → ConsumeRequest → Option ChallengeStore → Option ChallengeStore × Answer
unfolding consume
handle_challenge_consume now expected r none = (none, answer 501)
handle_challenge_consume now expected r (some c) =
    if not r.is_post
    then (some c, answer 405)
    else if is_empty expected || not (text_eq r.register_token expected)
    then (some c, answer 401)
    else consume_body now r.body c

-- consumeViaPeers: the status that each peer answers, in order (`none`: unreachable), and whether
-- one of them, up to the first success, consumed the nonce.
unfoldable pub first_success : List (Option ℕ) → Bool
first_success [] = false
first_success (none ∷ rest) = first_success rest
first_success (some status ∷ rest) = eqb status 200 || first_success rest
