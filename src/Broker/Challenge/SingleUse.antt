-- ===== src/Broker/Challenge/SingleUse.antt =====
-- challenge.go: what the nonce store promises of one nonce, and of its own size.
use gitseal.Prelude.{
  ℕ, ◌+◌, ◌≤◌, ◌≡◌, refl, Bool, false, not, Option, none, some, [], ◌∷◌, Text, text_key,
  text_eq_iff, length, ltb, if◌then◌else◌, arith, ◌==◌,
}
use gitseal.Prelude.Dict.{
  Dict, NodupKeys, lookup, lookup-insert, lookup-erase, insert-NodupKeys, erase-NodupKeys,
  length-insert, length-erase,
}
use gitseal.Broker.State.{ChallengeStore}
use gitseal.Broker.Challenge.{max_nonces, sweep, make_room, store_nonce, issue, consume, consumed}

abbrev pub unexpired : ℕ → Option ℕ → Bool
unexpired now none = false
unexpired now (some exp) = not (ltb exp now)

-- `nonce` is held and has not expired at `now`.
unfoldable pub is_live : ℕ → Text → ChallengeStore → Bool
is_live now nonce c = unexpired now (lookup nonce c.expiries)

-- Well-formedness: each nonce once, and at most the capacity.
unfoldable pub IsValid : ChallengeStore → Type 0
IsValid c = NodupKeys c.expiries × (length c.expiries ≤ max_nonces)

consumed-unexpired :
    (now : ℕ) (nonce : Text) (c : ChallengeStore) (o : Option ℕ)
    → (consumed now nonce c o).1 ≡ unexpired now o
consumed-unexpired now nonce c none = refl
consumed-unexpired now nonce c (some exp) = refl

-- Consume answers true exactly for a nonce that is held and not expired.
pub consume-is_live :
    (now : ℕ) (nonce : Text) (c : ChallengeStore) → (consume now nonce c).1 ≡ is_live now nonce c
unfolding consume is_live
consume-is_live now nonce c = consumed-unexpired now nonce c (lookup nonce c.expiries)

consumed-lookup :
    (now : ℕ) (j nonce : Text) (c : ChallengeStore) (o : Option ℕ)
    → lookup nonce c.expiries ≡ o
    → lookup j (consumed now nonce c o).0.expiries
      ≡ (if nonce == j then none else lookup j c.expiries)
consumed-lookup now j nonce c none h = ground (arith, text_eq_iff nonce j)
consumed-lookup now j nonce c (some exp) h = lookup-erase j nonce c.expiries

-- After Consume, whatever it answered, the nonce is no longer held, and every other nonce is as before.
pub consume-lookup :
    (now : ℕ) (j nonce : Text) (c : ChallengeStore)
    → lookup j (consume now nonce c).0.expiries ≡ (if nonce == j then none else lookup j c.expiries)
unfolding consume
consume-lookup now j nonce c = consumed-lookup now j nonce c (lookup nonce c.expiries) refl

-- A nonce is good once: a second Consume of it, at any time, is refused.
pub consume-twice :
    (now later : ℕ) (nonce : Text) (c : ChallengeStore)
    → (consume later nonce (consume now nonce c).0).1 ≡ false
unfolding is_live
consume-twice now later nonce c =
    rw (consume-is_live later nonce (consume now nonce c).0, consume-lookup now nonce nonce c)
      (ground (arith, text_eq_iff nonce nonce))

abbrev pub swept : ℕ → Option ℕ → Option ℕ
swept now none = none
swept now (some exp) = if ltb exp now then none else some exp

pub sweep-lookup :
    (now : ℕ) (j : Text) (d : Dict Text ℕ)
    → NodupKeys d
    → lookup j (sweep now d) ≡ swept now (lookup j d)
unfolding sweep lookup
sweep-lookup now j [] u = refl
sweep-lookup now j ((n, exp) ∷ d) (fresh, u) =
    ground (arith, sweep-lookup now j d u, text_eq_iff n j)

sweep-NodupKeys : (now : ℕ) (d : Dict Text ℕ) → NodupKeys d → NodupKeys (sweep now d)
unfolding sweep
sweep-NodupKeys now [] u = tt
sweep-NodupKeys now ((n, exp) ∷ d) (fresh, u) =
    ground (arith, sweep-NodupKeys now d u, sweep-lookup now n d u)

length-sweep : (now : ℕ) (d : Dict Text ℕ) → length (sweep now d) ≤ length d
unfolding sweep
length-sweep now [] = omega arith
length-sweep now ((n, exp) ∷ d) = ground (arith, length-sweep now d)

consumed-IsValid :
    (now : ℕ) (nonce : Text) (c : ChallengeStore) (o : Option ℕ)
    → IsValid c
    → IsValid (consumed now nonce c o).0
unfolding IsValid
consumed-IsValid now nonce c none v = v
consumed-IsValid now nonce c (some exp) (u, small) =
    (erase-NodupKeys nonce c.expiries u, omega (arith, length-erase nonce c.expiries))

-- Consume keeps the store well-formed.
pub consume-IsValid :
    (now : ℕ) (nonce : Text) (c : ChallengeStore) → IsValid c → IsValid (consume now nonce c).0
unfolding consume
consume-IsValid now nonce c v = consumed-IsValid now nonce c (lookup nonce c.expiries) v

pub make_room-NodupKeys :
    (now : ℕ) (c : ChallengeStore) → NodupKeys c.expiries → NodupKeys (make_room now c)
unfolding make_room
make_room-NodupKeys now c u = ground (arith, sweep-NodupKeys now c.expiries u)

length-make_room : (now : ℕ) (c : ChallengeStore) → length (make_room now c) ≤ length c.expiries
unfolding make_room
length-make_room now c = ground (arith, length-sweep now c.expiries)

store_nonce-IsValid :
    (issued_at : ℕ) (nonce : Text) (c : ChallengeStore) (held : Dict Text ℕ)
    → NodupKeys held
    → length held ≤ max_nonces
    → IsValid (store_nonce issued_at nonce c held).0
unfolding IsValid store_nonce
store_nonce-IsValid issued_at nonce c held u small = ground (
  arith,
  insert-NodupKeys nonce (issued_at + c.ttl) held u,
  length-insert nonce (issued_at + c.ttl) held,
)

-- Issue keeps the store well-formed: however often it is asked, it never holds more than max_nonces.
pub issue-IsValid :
    (sweep_at issued_at : ℕ) (nonce : Text) (c : ChallengeStore)
    → IsValid c
    → IsValid (issue sweep_at issued_at nonce c).0
unfolding IsValid issue
issue-IsValid sweep_at issued_at nonce c (u, small) =
    store_nonce-IsValid issued_at nonce c (make_room sweep_at c) (make_room-NodupKeys sweep_at c u)
      (omega (arith, length-make_room sweep_at c))

make_room-unexpired :
    (sweep_at t : ℕ) (j : Text) (c : ChallengeStore)
    → NodupKeys c.expiries
    → sweep_at ≤ t
    → unexpired t (lookup j (make_room sweep_at c)) ≡ unexpired t (lookup j c.expiries)
unfolding make_room
make_room-unexpired sweep_at t j c u later = ground (arith, sweep-lookup sweep_at j c.expiries u)

store_nonce-is_live :
    (t issued_at : ℕ) (j nonce n : Text) (c : ChallengeStore) (held : Dict Text ℕ)
    → (store_nonce issued_at nonce c held).1 ≡ some n
    → is_live t j (store_nonce issued_at nonce c held).0
      ≡ (if nonce == j then not (ltb (issued_at + c.ttl) t) else unexpired t (lookup j held))
unfolding is_live store_nonce
store_nonce-is_live t issued_at j nonce n c held h =
    ground (arith, lookup-insert j nonce (issued_at + c.ttl) held, text_eq_iff nonce j)

-- Once Issue gives out a nonce, that nonce is live for the time to live and not after it, and every
-- other nonce is, from the sweep on, exactly as live as before: only expired ones were dropped.
pub issue-is_live :
    (sweep_at issued_at t : ℕ) (j nonce n : Text) (c : ChallengeStore)
    → IsValid c
    → sweep_at ≤ t
    → (issue sweep_at issued_at nonce c).1 ≡ some n
    → is_live t j (issue sweep_at issued_at nonce c).0
      ≡ (if nonce == j then not (ltb (issued_at + c.ttl) t) else is_live t j c)
unfolding IsValid issue is_live
issue-is_live sweep_at issued_at t j nonce n c (u, small) later h = rw (
  store_nonce-is_live t issued_at j nonce n c (make_room sweep_at c) h,
  make_room-unexpired sweep_at t j c u later,
)

-- Issue refuses only a store that holds max_nonces nonces after the expired ones are swept.
pub issue-refused :
    (sweep_at issued_at : ℕ) (nonce : Text) (c : ChallengeStore)
    → (issue sweep_at issued_at nonce c).1 ≡ none
    → max_nonces ≤ length (sweep sweep_at c.expiries)
unfolding issue make_room store_nonce
issue-refused sweep_at issued_at nonce c h = ground arith
