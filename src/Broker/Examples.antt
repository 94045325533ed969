-- ===== src/Broker/Examples.antt =====
-- A broker, a GitLab and requests on which the handlers run.
use gitseal.Prelude.{
  ◌≡◌, refl, true, false, none, some, [], ◌∷◌, Text, text, pos, text_eq, strip_prefix, ok, ap,
}
use gitseal.Prelude.Dict.{lookup, erase}
use gitseal.Age.{toy}
use gitseal.Age.Toy.{parse, decrypt}
use gitseal.Base64.{encode, decode, decode_sextet}
use gitseal.Strconv.{parse_int, parse_digits, split_lines, cut_blank_line, trim_space, trim_left}
use gitseal.Crypto.Headers.{parse_headers, read_lines, read_line, read_case, parse_level_line}
use gitseal.Crypto.Open.{unseal_verified, open_verified, decrypt_envelope}
use gitseal.Broker.State.{Broker, IndexEntry}
use gitseal.Broker.World.{answered, TokenSelf, Account, GitLab, Ssh}
use gitseal.Broker.Challenge.{consume}
use gitseal.Broker.Keys.{key_for}
use gitseal.Broker.Identity.{lookup_index}
use gitseal.Broker.Signer.{World, auth_via_ssh, consume_nonce, resolve_signer, verify_signer}
use gitseal.Broker.Signer.Laws.{Proved, auth_via_ssh-Proved, auth_via_ssh-replay}
use gitseal.Broker.Unseal.{
  UnsealRequest, Target, Caller, read_request, authenticate, select_identity, open_target,
  handle_unseal, pat_caller, check_token, check_user,
}
use gitseal.Broker.Unseal.Laws.{Opened, handle_unseal-Opened}
use gitseal.Broker.Unseal.Liveness.{Openable, by_level, handle_unseal-pat, handle_unseal-ssh}

abbrev pub alice : Account
alice = record { id = pos 3; state = text "active"; bot = false }

abbrev pub live : TokenSelf
live = record { active = true; revoked = false }

abbrev pub gitlab : GitLab
gitlab = record {
  token_self = λ token. answered 200 (some live);
  current_user = λ token. answered 200 (some alice);
  user = λ token uid. answered 200 (some alice);
  member = λ token project_id uid. answered 200 (some (pos 40));
  members = λ token project_id. answered 200 (some (pos 3 ∷ []));
  user_keys = λ token uid. answered 200 (some (text "key" ∷ []));
}

-- a key is its own fingerprint, and a signature is the message
abbrev pub ssh : Ssh
ssh = record {
  parse_authorized_key = λ line. some line;
  fingerprint = λ key. key;
  verify_sig = λ key message sig. text_eq message sig;
}

abbrev pub world : World
world = record {
  gitlab = gitlab;
  ssh = ssh;
  refresh_at = 5;
  consume_at = 5;
  peer_replies = λ nonce. [];
}

abbrev pub broker : Broker
broker = record {
  keys = some (record { identities = (pos 7, text "human") ∷ [] });
  skipped = [];
  require_cf_access = false;
  registry = none;
  challenges = some (record { ttl = 60; expiries = (text "n", 50) ∷ [] });
  service_token = text "svc";
  identity =
      some
        (record { entries = (text "key", record { user_id = pos 3; pub_key = text "key" }) ∷ [] });
  system_hook_token = [];
  recipients = none;
  register_token = [];
  draining = false;
  last_miss = none;
}

abbrev ciphertext : Text
ciphertext =
    text
      "BWp3b2NwAQBnaXRzZWFsLXByb2plY3QtaWQ6NwpnaXRzZWFsLW1pbi1hY2Nlc3MtbGV2ZWw6NDAKZ2l0c2VhbC1uYW1lOkRCCgpzM2NyZXQ="

abbrev request : UnsealRequest
request = record {
  is_post = true;
  cf_assertion = [];
  body = some (record { project_id = pos 7; recipient = []; ciphertext = ciphertext });
  fingerprint = [];
  nonce = [];
  signature = [];
  gitlab_token = text "glpat";
}

abbrev file : Text
file =
    5
    ∷ 106
    ∷ 119
    ∷ 111
    ∷ 99
    ∷ 112
    ∷ 1
    ∷ 0
    ∷ text "gitseal-project-id:7\ngitseal-min-access-level:40\ngitseal-name:DB\n\ns3cret"

abbrev target : Target
target = record { project_id = pos 7; recipient = []; v4_identity = []; ciphertext = file }

read : read_request toy broker request ≡ ok target
unfolding read_request decode decode_sextet
read = refl

chosen : select_identity broker target ≡ ok (text "human")
unfolding select_identity key_for lookup
chosen = refl

opens : open_target toy target (text "human") ≡ ok (text "s3cret", pos 40)
unfolding open_target unseal_verified open_verified decrypt_envelope parse decrypt cut_blank_line
    parse_headers split_lines read_lines read_line read_case trim_space parse_int parse_level_line
    text_eq strip_prefix trim_left parse_digits
opens = refl

abbrev pat_caller_alice : Caller
pat_caller_alice = record { user_id = pos 3; lookup_token = text "glpat" }

openable : Openable toy gitlab broker target pat_caller_alice (pos 40) (pos 40) (text "s3cret")
openable = record { identity = text "human"; member = refl; chosen = chosen; opens = opens }

handle_unseal-pat_example :
    handle_unseal toy world broker request ≡ (broker, by_level (pos 40) (pos 40) (text "s3cret"))
handle_unseal-pat_example =
    handle_unseal-pat toy world broker request target live alice (pos 40) (pos 40) (text "s3cret")
      read refl refl refl refl refl (refl, refl, refl) openable

answered_pat : (handle_unseal toy world broker request).1 ≡ ok (encode (text "s3cret"))
unfolding by_level
answered_pat =
    ap (λ p. p.1)
      (handle_unseal-pat toy world broker request target live alice (pos 40) (pos 40)
        (text "s3cret") read refl refl refl refl refl (refl, refl, refl) openable)

handle_unseal-Opened_example :
    (t : Target) × (b' : Broker) × (c : Caller) × (read_request toy broker request ≡ ok t)
    × (authenticate world broker request ≡ (b', ok c))
    × Opened toy gitlab b' t c (encode (text "s3cret"))
handle_unseal-Opened_example =
    handle_unseal-Opened toy world broker request (encode (text "s3cret")) answered_pat

pat_answer : pat_caller gitlab (text "glpat") ≡ ok pat_caller_alice
unfolding pat_caller check_token check_user text_eq
pat_answer = refl

abbrev spent : Broker
spent = record broker { challenges = some (record { ttl = 60; expiries = [] }) }

proved : auth_via_ssh world (text "key") (text "n") (text "n") broker ≡ (spent, ok (pos 3))
unfolding auth_via_ssh resolve_signer lookup_index consume_nonce consume verify_signer text_eq
    lookup erase
proved = refl

auth_via_ssh-Proved_example :
    (e : IndexEntry) × (resolve_signer spent (text "key") ≡ some e)
    × (e.user_id ≡ pos 3)
    × Proved ssh (text "key") (text "n") (text "n") e
auth_via_ssh-Proved_example =
    auth_via_ssh-Proved world (text "key") (text "n") (text "n") broker spent (pos 3) proved

auth_via_ssh-replay_example :
    ¬ (auth_via_ssh world (text "key") (text "n") (text "n") spent ≡ (spent, ok (pos 3)))
auth_via_ssh-replay_example =
    auth_via_ssh-replay world world (text "key") (text "key") (text "n") (text "n") (text "n")
      broker spent spent (pos 3) (pos 3) proved refl

abbrev ssh_request : UnsealRequest
ssh_request = record request {
  fingerprint = text "key";
  nonce = text "n";
  signature = text "n";
  gitlab_token = [];
}

ssh_read : read_request toy broker ssh_request ≡ ok target
unfolding read_request decode decode_sextet
ssh_read = refl

ssh_chosen : select_identity spent target ≡ ok (text "human")
unfolding select_identity key_for lookup
ssh_chosen = refl

by_ssh :
    Openable toy gitlab spent target
      (record { user_id = pos 3; lookup_token = text "svc" })
      (pos 40)
      (pos 40)
      (text "s3cret")
by_ssh = record { identity = text "human"; member = refl; chosen = ssh_chosen; opens = opens }

handle_unseal-ssh_example :
    handle_unseal toy world broker ssh_request ≡ (spent, by_level (pos 40) (pos 40) (text "s3cret"))
handle_unseal-ssh_example =
    handle_unseal-ssh toy world broker spent ssh_request target (pos 3) alice (pos 40) (pos 40)
      (text "s3cret") ssh_read refl proved refl (refl, refl, refl) by_ssh
