-- ===== src/Broker/Keys.antt =====
-- reload.go, keystore_dir.go and the keystore's accessors: which keys the broker serves, and when a
-- reload replaces them.
pub mod Laws
use gitseal.Prelude.{
  ℕ, ◌≡◌, Bool, true, false, Option, none, some, List, [], ◌∷◌, Text, ℤ, pos, int_key, text_eq,
  is_empty, length, eqb, if◌then◌else◌,
}
use gitseal.Prelude.Dict.{Dict, lookup}
use gitseal.Age.{Age}
use gitseal.Broker.State.{KeyStore, Broker}

-- BeginDrain
abbrev pub begin_drain : Broker → Broker
begin_drain b = record b { draining = true }

abbrev usable : Option Text → Option Text
usable none = none
usable (some id) = if is_empty id then none else some id

-- keyFor
unfoldable pub key_for : Option KeyStore → ℤ → Option Text
key_for none project_id = none
key_for (some ks) project_id = usable (lookup project_id ks.identities)

module _ (age : Age) where
  -- the scan over the stored identities: the first whose recipient is the public key asked for
  abbrev derives : Text → Option Text → Bool
  derives pubkey none = false
  derives pubkey (some id) = text_eq (age.recipient_of id) pubkey

  unfoldable pub scan_identities : Text → Dict ℤ Text → Option (Text × ℤ)
  scan_identities pubkey [] = none
  scan_identities pubkey ((project_id, id) ∷ rest) =
      let later = scan_identities pubkey rest in
      if derives pubkey (age.parse_identity id) then some (id, project_id) else later

  abbrev scan_keys : Text → Option KeyStore → Option (Text × ℤ)
  scan_keys pubkey none = none
  scan_keys pubkey (some ks) = scan_identities pubkey ks.identities

  abbrev parsed : Option Text → Option (Text × ℤ) → Option (Text × ℤ)
  parsed none found = none
  parsed (some _) found = found

  -- keyForPubkey: the identity and the numeric project id
  unfoldable pub key_for_pubkey : Option KeyStore → Text → Option (Text × ℤ)
  unfolding scan_identities
  key_for_pubkey keys pubkey = parsed (age.parse_recipient pubkey) (scan_keys pubkey keys)

-- keyCount
unfoldable pub key_count : Option KeyStore → ℕ
key_count none = 0
key_count (some ks) = length ks.identities

-- SwapKeys, and whether it applied
unfoldable pub swap_keys : Option KeyStore → List Text → Broker → Broker × Bool
swap_keys none skipped b = (b, false)
swap_keys (some ks) skipped b =
    if eqb (length ks.identities) 0
    then (b, false)
    else (record b { keys = some ks; skipped = skipped }, true)

-- ReloadOnce, given what LoadKeyStoreDir returns for the directory: the keystore (`none` for an
-- error) and the skipped files. The result is the skip list and whether a swap happened.
unfoldable pub reload_once : Option KeyStore → List Text → Broker → Broker × (List Text × Bool)
unfolding swap_keys
reload_once none skipped b = (b, ([], false))
reload_once (some ks) skipped b =
    let (b', swapped) = swap_keys (some ks) skipped b in (b', (skipped, swapped))

-- PollReload: one reload for each tick of the ticker.
unfoldable pub poll_reload : List (Option KeyStore × List Text) → Broker → Broker
unfolding reload_once
poll_reload [] b = b
poll_reload ((loaded, skipped) ∷ ticks) b = poll_reload ticks (reload_once loaded skipped b).0

pub data Readiness : Type 0 where
  draining : Readiness
  not_ready : List Text → Readiness
  ready : ℕ → List Text → Readiness

abbrev pub readiness_status : Readiness → ℕ
readiness_status draining = 503
readiness_status (not_ready degraded) = 503
readiness_status (ready n degraded) = 200

-- HandleReadyz: the number of keys and the degraded set.
unfoldable pub handle_readyz : Broker → Readiness
unfolding key_count
handle_readyz b =
    let n = key_count b.keys in
    if b.draining
    then Readiness.draining
    else if eqb n 0
    then not_ready b.skipped
    else ready n b.skipped
