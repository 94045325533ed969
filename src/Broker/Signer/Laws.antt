-- ===== src/Broker/Signer/Laws.antt =====
-- ssh_auth.go: what a proved challenge says, and that it is proved once.
use gitseal.Prelude.{
  ℕ, ◌≡◌, refl, sym, ap, ◌∙◌, Bool, true, false, not, ◌||◌, Option, none, some, Text, ℤ, text_eq,
  text_eq_iff, ok, refuse_if-eq-ok, require-bind-eq-ok, arith,
}
use gitseal.Broker.State.{ChallengeStore, IndexEntry, Broker}
use gitseal.Broker.World.{Ssh}
use gitseal.Broker.Challenge.{consume}
use gitseal.Broker.Challenge.SingleUse.{consume-twice}
use gitseal.Broker.Reconcile.Laws.{SameButIndex, on_miss_refresh-SameButIndex}
use gitseal.Broker.Signer.{
  resolve_signer, bad_key_line, World, consume_via_peers, with_store, consume_here, consume_nonce,
  verify_signer, prove, refresh_on_miss, challenged, auth_via_ssh,
}

-- The entry's key has the presented fingerprint and verifies the signature over the nonce.
pub record Proved (ssh : Ssh) (fp nonce sig : Text) (e : IndexEntry) : Type 0 where
  pub key : Text
  pub parses : ssh.parse_authorized_key e.pub_key ≡ some key
  pub fingerprint : ssh.fingerprint key ≡ fp
  pub signed : ssh.verify_sig key nonce sig ≡ true

verify_signer-Proved :
    (ssh : Ssh) (fp nonce sig : Text) (o : Option IndexEntry) (uid : ℤ)
    → verify_signer ssh fp nonce sig o ≡ ok uid
    → (e : IndexEntry) × (o ≡ some e) × (e.user_id ≡ uid) × Proved ssh fp nonce sig e
unfolding verify_signer
verify_signer-Proved ssh fp nonce sig none uid h = cc
verify_signer-Proved ssh fp nonce sig (some e) uid h =
    let (key, parses, h₁) =
      require-bind-eq-ok (ssh.parse_authorized_key e.pub_key) bad_key_line _ _ h in
    let (same, h₂) = refuse_if-eq-ok (not (text_eq (ssh.fingerprint key) fp)) _ _ _ h₁ in
    let (signed, h₃) = refuse_if-eq-ok (not (ssh.verify_sig key nonce sig)) _ _ _ h₂ in
    (
      e,
      refl,
      cc,
      record {
        key = key;
        parses = parses;
        fingerprint = ground (arith, text_eq_iff (ssh.fingerprint key) fp);
        signed = ground arith;
      },
    )

prove-ok :
    (w : World) (fp nonce sig : Text) (p : Broker × Bool) (b' : Broker) (uid : ℤ)
    → prove w fp nonce sig p ≡ (b', ok uid)
    → (p ≡ (b', true)) × (verify_signer w.ssh fp nonce sig (resolve_signer b' fp) ≡ ok uid)
prove-ok w fp nonce sig (b, true) b' uid h =
    let same : b ≡ b' = ap (λ q. q.0) h in
    (ap (λ q. (q, true)) same, rw (sym same) (ap (λ q. q.1) h))
prove-ok w fp nonce sig (b, false) b' uid h = cc

challenged-ok :
    (w : World) (fp nonce sig : Text) (b b' : Broker) (o : Option ChallengeStore) (uid : ℤ)
    → challenged w fp nonce sig b o ≡ (b', ok uid)
    → ((c : ChallengeStore) × (o ≡ some c))
      × (consume_nonce w (refresh_on_miss w b (resolve_signer b fp)) nonce ≡ (b', true))
      × (verify_signer w.ssh fp nonce sig (resolve_signer b' fp) ≡ ok uid)
challenged-ok w fp nonce sig b b' none uid h = cc
challenged-ok w fp nonce sig b b' (some c) uid h =
    let (p, v) =
      prove-ok w fp nonce sig (consume_nonce w (refresh_on_miss w b (resolve_signer b fp)) nonce) b'
        uid h in
    ((c, refl), p, v)

-- A caller that authViaSSH lets through is the user of an entry that the broker resolves the presented
-- fingerprint to, and that entry's key has the fingerprint and verifies the signature over the nonce.
pub auth_via_ssh-Proved :
    (w : World) (fp nonce sig : Text) (b b' : Broker) (uid : ℤ)
    → auth_via_ssh w fp nonce sig b ≡ (b', ok uid)
    → (e : IndexEntry) × (resolve_signer b' fp ≡ some e)
      × (e.user_id ≡ uid)
      × Proved w.ssh fp nonce sig e
unfolding auth_via_ssh
auth_via_ssh-Proved w fp nonce sig b b' uid h =
    let (_, _, v) = challenged-ok w fp nonce sig b b' b.challenges uid h in
    verify_signer-Proved w.ssh fp nonce sig (resolve_signer b' fp) uid v

refresh_on_miss-SameButIndex :
    (w : World) (b : Broker) (o : Option IndexEntry) → SameButIndex b (refresh_on_miss w b o)
refresh_on_miss-SameButIndex w b (some e) = refl
refresh_on_miss-SameButIndex w b none = on_miss_refresh-SameButIndex w.gitlab w.ssh w.refresh_at b

-- The store, if there is one, will refuse the nonce from now on.
abbrev Spent : Text → Option ChallengeStore → Type 0
Spent nonce o = (c : ChallengeStore) → o ≡ some c → (later : ℕ) → (consume later nonce c).1 ≡ false

with_store-challenges :
    (b : Broker) (p : ChallengeStore × Bool) (elsewhere : Bool)
    → ((with_store b p elsewhere).0.challenges ≡ some p.0)
      × ((with_store b p elsewhere).1 ≡ (p.1 || elsewhere))
with_store-challenges b (c, done) elsewhere = (refl, refl)

consume_here-Spent :
    (w : World) (b : Broker) (nonce : Text) (o : Option ChallengeStore)
    → b.challenges ≡ o
    → Spent nonce (consume_here w b nonce o).0.challenges
consume_here-Spent w b nonce none same c h later = cc
consume_here-Spent w b nonce (some c₀) same c h later =
    let (kept, _) =
      with_store-challenges b (consume w.consume_at nonce c₀) (consume_via_peers w b nonce) in
    let e : c ≡ (consume w.consume_at nonce c₀).0 = cc in
    rw (e) (consume-twice w.consume_at later nonce c₀)

consume_here-refused :
    (w : World) (b : Broker) (nonce : Text) (o : Option ChallengeStore)
    → Spent nonce o
    → consume_via_peers w b nonce ≡ false
    → (consume_here w b nonce o).1 ≡ false
consume_here-refused w b nonce none spent peers = peers
consume_here-refused w b nonce (some c) spent peers = rw (
  (with_store-challenges b (consume w.consume_at nonce c) (consume_via_peers w b nonce)).1,
  spent c refl w.consume_at,
  peers,
)

refreshed-refused :
    (w : World) (b : Broker) (nonce : Text) (o : Option IndexEntry)
    → Spent nonce b.challenges
    → consume_via_peers w b nonce ≡ false
    → (consume_nonce w (refresh_on_miss w b o) nonce).1 ≡ false
unfolding consume_nonce
refreshed-refused w b nonce o spent peers =
    rw (refresh_on_miss-SameButIndex w b o)
      (consume_here-refused w _ nonce b.challenges spent peers)

-- Replay: after a proof by a nonce, no request with that nonce is let through by the broker, whatever
-- its fingerprint and signature, unless a peer still holds the nonce.
pub auth_via_ssh-replay :
    (w w' : World) (fp fp' nonce sig sig' : Text) (b b' b'' : Broker) (uid uid' : ℤ)
    → auth_via_ssh w fp nonce sig b ≡ (b', ok uid)
    → consume_via_peers w' b' nonce ≡ false
    → ¬ (auth_via_ssh w' fp' nonce sig' b' ≡ (b'', ok uid'))
unfolding auth_via_ssh consume_nonce
auth_via_ssh-replay w w' fp fp' nonce sig sig' b b' b'' uid uid' h peers again =
    let (_, first, _) = challenged-ok w fp nonce sig b b' b.challenges uid h in
    let (_, second, _) = challenged-ok w' fp' nonce sig' b' b'' b'.challenges uid' again in
    let r = refresh_on_miss w b (resolve_signer b fp) in
    let spent : Spent nonce b'.challenges =
      rw (sym (ap (λ p. p.0.challenges) first)) (consume_here-Spent w r nonce r.challenges refl) in
    let refused = refreshed-refused w' b' nonce (resolve_signer b' fp') spent peers in
    let clash : true ≡ false = sym (ap (λ p. p.1) second) ∙ refused in cc
