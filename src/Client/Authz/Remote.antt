-- ===== src/Client/Authz/Remote.antt =====
-- remote_resolver.go: the signers that the broker's /v1/signer/resolve answers about, with the cache of
-- one run. `answers` is what the broker answers for a fingerprint, and `parse_key` ParseAuthorizedKey.
use gitseal.Prelude.{
  ℕ, ◌≡◌, refl, Bool, not, ◌&&◌, Option, none, some, Text, text_key, ℤ, eqb, is_empty,
  if◌then◌else◌, ap, sym, ◌∙◌,
}
use gitseal.Prelude.Dict.{Dict, lookup, insert, lookup-insert_self}
use gitseal.Client.Authz.Sig.{SignerResolver}

-- signerResolveResponse
pub record SignerResolveResponse : Type 0 where
  pub registered : Bool
  pub pub_key : Text
  pub live_level : ℤ

-- remoteSigner; a nil key is `none`
pub record RemoteSigner : Type 0 where
  pub registered : Bool
  pub key : Option Text
  pub level : ℤ

-- `none` for a transport error, else the status and the decoded body
abbrev pub Answer : Type 0
Answer = Option (ℕ × Option SignerResolveResponse)

module _ (parse_key : Text → Option Text) (answers : Text → Answer) where
  abbrev pub with_key : SignerResolveResponse → Option Text → Option RemoteSigner
  with_key out none = none
  with_key out (some key) =
      some (record { registered = out.registered; key = some key; level = out.live_level })

  abbrev pub signer_of : SignerResolveResponse → Option RemoteSigner
  signer_of out =
      if out.registered && not (is_empty out.pub_key)
      then with_key out (parse_key out.pub_key)
      else some (record { registered = out.registered; key = none; level = out.live_level })

  abbrev pub signer_of_body : Option SignerResolveResponse → Option RemoteSigner
  signer_of_body none = none
  signer_of_body (some out) = signer_of out

  abbrev pub resolved_signer : Answer → Option RemoteSigner
  resolved_signer none = none
  resolved_signer (some (status, body)) = if eqb status 200 then signer_of_body body else none

  abbrev pub remember :
      Text
      → Dict Text RemoteSigner
      → Option RemoteSigner
      → Dict Text RemoteSigner × Option RemoteSigner
  remember fp cache none = (cache, none)
  remember fp cache (some s) = (insert fp s cache, some s)

  abbrev pub cached_or :
      Text
      → Dict Text RemoteSigner
      → Option RemoteSigner
      → Dict Text RemoteSigner × Option RemoteSigner
  cached_or fp cache (some s) = (cache, some s)
  cached_or fp cache none = remember fp cache (resolved_signer (answers fp))

  -- fetch: the cache afterwards, and the signer unless there was an error
  unfoldable pub fetch :
      Text → Dict Text RemoteSigner → Dict Text RemoteSigner × Option RemoteSigner
  fetch fp cache = cached_or fp cache (lookup fp cache)

  abbrev pub key_of : Option RemoteSigner → Option Text
  key_of none = none
  key_of (some s) = if s.registered then s.key else none

  abbrev pub level_of : Option RemoteSigner → Option ℤ
  level_of none = none
  level_of (some s) = some s.level

  -- PubKeyFor and LiveLevelFor, from a cache
  unfoldable pub remote_resolver :
      Dict Text RemoteSigner → (Text → Text → Text → Bool) → SignerResolver
  unfolding fetch
  remote_resolver cache verify = record {
    pub_key_for = λ fp. key_of (fetch fp cache).1;
    live_level_for = λ fp. level_of (fetch fp cache).1;
    verify = verify;
  }

  remembered :
      (fp : Text) (cache cache' : Dict Text RemoteSigner) (s : RemoteSigner)
      (o : Option RemoteSigner)
      → remember fp cache o ≡ (cache', some s)
      → lookup fp cache' ≡ some s
  remembered fp cache cache' s none h =
      let e = ap (λ (r : Dict Text RemoteSigner × Option RemoteSigner). r.1) h in cc
  remembered fp cache cache' s (some t) h =
      let same : some t ≡ some s =
        ap (λ (r : Dict Text RemoteSigner × Option RemoteSigner). r.1) h in
      ap (λ (r : Dict Text RemoteSigner × Option RemoteSigner). lookup fp r.0) (sym h)
      ∙ lookup-insert_self fp t cache
      ∙ same

  held_after :
      (fp : Text) (cache cache' : Dict Text RemoteSigner) (s : RemoteSigner)
      (o : Option RemoteSigner)
      → lookup fp cache ≡ o
      → cached_or fp cache o ≡ (cache', some s)
      → lookup fp cache' ≡ some s
  held_after fp cache cache' s none e h =
      remembered fp cache cache' s (resolved_signer (answers fp)) h
  held_after fp cache cache' s (some t) e h =
      ap (λ (r : Dict Text RemoteSigner × Option RemoteSigner). lookup fp r.0) (sym h)
      ∙ e
      ∙ ap (λ (r : Dict Text RemoteSigner × Option RemoteSigner). r.1) h

  -- A signer that was fetched once is answered from the cache, and the cache is left as it is.
  pub fetch-twice :
      (fp : Text) (cache cache' : Dict Text RemoteSigner) (s : RemoteSigner)
      → fetch fp cache ≡ (cache', some s)
      → fetch fp cache' ≡ (cache', some s)
  unfolding fetch
  fetch-twice fp cache cache' s h =
      ap (cached_or fp cache') (held_after fp cache cache' s (lookup fp cache) refl h)
