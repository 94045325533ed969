-- ===== src/Broker/Keys/Laws.antt =====
-- keystore.go and reload.go: a reload never takes the broker's keys away, and what it serves.
use gitseal.Prelude.{
  ◌<◌, ◌≡◌, refl, true, false, Option, none, some, List, [], ◌∷◌, Text, ℤ, length, eqb, text_eq_iff,
  int_key, eqb_ℤ_iff, if◌then◌else◌, arith, ◌↔◌,
}
use gitseal.Prelude.Dict.{Dict, NodupKeys, lookup, lookup-cons}
use gitseal.Age.{Age}
use gitseal.Broker.State.{KeyStore, Broker}
use gitseal.Broker.Keys.{
  scan_identities, key_for_pubkey, key_count, swap_keys, reload_once, poll_reload, handle_readyz,
  readiness_status, derives, scan_keys, parsed,
}

-- What a load hands to the broker: a keystore that is not empty.
abbrev effective : Option KeyStore → Option KeyStore
effective none = none
effective (some ks) = if eqb (length ks.identities) 0 then none else some ks

abbrev or_else : Option KeyStore → Option KeyStore → Option KeyStore
or_else none old = old
or_else (some ks) old = some ks

-- The last load that was not empty, and the keys at the start where there was none.
unfoldable pub last_effective :
    List (Option KeyStore × List Text) → Option KeyStore → Option KeyStore
last_effective [] keys = keys
last_effective ((loaded, skipped) ∷ ticks) keys =
    last_effective ticks (or_else (effective loaded) keys)

reload_once-keys :
    (loaded : Option KeyStore) (skipped : List Text) (b : Broker)
    → (reload_once loaded skipped b).0.keys ≡ or_else (effective loaded) b.keys
unfolding reload_once swap_keys
reload_once-keys none skipped b = refl
reload_once-keys (some ks) skipped b = ground arith

-- After any sequence of reloads the broker serves the last load that was not empty, and the keys that
-- it started with if each load failed or was empty.
pub poll_reload-keys :
    (ticks : List (Option KeyStore × List Text)) (b : Broker)
    → (poll_reload ticks b).keys ≡ last_effective ticks b.keys
unfolding poll_reload last_effective
poll_reload-keys [] b = refl
poll_reload-keys ((loaded, skipped) ∷ ticks) b =
    rw (poll_reload-keys ticks (reload_once loaded skipped b).0, reload_once-keys loaded skipped b)

last_effective-count :
    (ticks : List (Option KeyStore × List Text)) (keys : Option KeyStore)
    → 0 < key_count keys
    → 0 < key_count (last_effective ticks keys)
unfolding last_effective key_count
last_effective-count [] keys h = h
last_effective-count ((none, skipped) ∷ ticks) keys h = last_effective-count ticks keys h
last_effective-count ((some ks, skipped) ∷ ticks) keys h =
    ground (arith, last_effective-count ticks (some ks), last_effective-count ticks keys h)

-- A broker that serves a key still serves one after any sequence of reloads.
pub poll_reload-never_empty :
    (ticks : List (Option KeyStore × List Text)) (b : Broker)
    → 0 < key_count b.keys
    → 0 < key_count (poll_reload ticks b).keys
poll_reload-never_empty ticks b h =
    rw (poll_reload-keys ticks b) (last_effective-count ticks b.keys h)

-- The broker is ready exactly when it is not draining and serves a key.
pub handle_readyz-status :
    (b : Broker)
    → (readiness_status (handle_readyz b) ≡ 200) ↔ ((b.draining ≡ false) × (0 < key_count b.keys))
unfolding handle_readyz
handle_readyz-status b = ground arith

scan_identities_sound :
    (age : Age) (pubkey : Text) (d : Dict ℤ Text) (identity : Text) (project_id : ℤ)
    → NodupKeys d
    → scan_identities age pubkey d ≡ some (identity, project_id)
    → (lookup project_id d ≡ some identity)
      × (derives age pubkey (age.parse_identity identity) ≡ true)
unfolding scan_identities
scan_identities_sound age pubkey [] identity project_id u h = cc
scan_identities_sound age pubkey ((p, i) ∷ d) identity project_id (fresh, u) h = ground (
  arith,
  lookup-cons project_id p i d,
  scan_identities_sound age pubkey d identity project_id u,
  eqb_ℤ_iff p project_id,
)

derives-true :
    (age : Age) (pubkey : Text) (o : Option Text)
    → derives age pubkey o ≡ true
    → (id : Text) × (o ≡ some id) × (age.recipient_of id ≡ pubkey)
derives-true age pubkey none h = cc
derives-true age pubkey (some id) h = (id, refl, (text_eq_iff (age.recipient_of id) pubkey).0 h)

scan_keys_sound :
    (age : Age) (pubkey : Text) (o : Option KeyStore) (identity : Text) (project_id : ℤ)
    → ((ks : KeyStore) → o ≡ some ks → NodupKeys ks.identities)
    → scan_keys age pubkey o ≡ some (identity, project_id)
    → (ks : KeyStore) × (o ≡ some ks)
      × (lookup project_id ks.identities ≡ some identity)
      × ((id : Text) × (age.parse_identity identity ≡ some id) × (age.recipient_of id ≡ pubkey))
scan_keys_sound age pubkey none identity project_id u h = cc
scan_keys_sound age pubkey (some ks) identity project_id u h =
    let (held, derived) =
      scan_identities_sound age pubkey ks.identities identity project_id (u ks refl) h in
    (ks, refl, held, derives-true age pubkey (age.parse_identity identity) derived)

parsed-some :
    (age : Age) (o : Option Text) (found : Option (Text × ℤ)) (x : Text × ℤ)
    → parsed age o found ≡ some x
    → found ≡ some x
parsed-some age none found x h = cc
parsed-some age (some p) found x h = h

-- What keyForPubkey answers is an identity that the keystore holds under that project, and the public
-- key asked for is the recipient of that identity.
pub key_for_pubkey_sound :
    (age : Age) (pubkey : Text) (keys : Option KeyStore) (identity : Text) (project_id : ℤ)
    → ((ks : KeyStore) → keys ≡ some ks → NodupKeys ks.identities)
    → key_for_pubkey age keys pubkey ≡ some (identity, project_id)
    → (ks : KeyStore) × (keys ≡ some ks)
      × (lookup project_id ks.identities ≡ some identity)
      × ((id : Text) × (age.parse_identity identity ≡ some id) × (age.recipient_of id ≡ pubkey))
unfolding key_for_pubkey
key_for_pubkey_sound age pubkey keys identity project_id u h =
    scan_keys_sound age pubkey keys identity project_id u
      (parsed-some age (age.parse_recipient pubkey) (scan_keys age pubkey keys) _ h)
