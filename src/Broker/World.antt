-- ===== src/Broker/World.antt =====
-- What the broker calls and does not implement: GitLab, its peers and OpenSSH keys. An answer is a
-- status code with the body as `json.Unmarshal` decodes it (`none`: it refuses the body), or a
-- transport error. A value of `GitLab` is what GitLab answers while one request is served.
use gitseal.Prelude.{ℕ, Bool, Option, List, Text, ℤ}

pub data Reply (A : Type 0) : Type 0 where
  unreachable : Reply A
  answered : ℕ → Option A → Reply A

-- GET /personal_access_tokens/self
pub record TokenSelf : Type 0 where
  pub active : Bool
  pub revoked : Bool

-- GET /user and GET /users/:id
pub record Account : Type 0 where
  pub id : ℤ
  pub state : Text
  pub bot : Bool

-- Every call names the token that it authenticates with.
pub record GitLab : Type 0 where
  pub token_self : Text → Reply TokenSelf
  pub current_user : Text → Reply Account
  pub user : Text → ℤ → Reply Account
  -- GET /projects/:id/members/all/:user_id, the access level
  pub member : Text → ℤ → ℤ → Reply ℤ
  -- GET /projects/:id/members/all, the user ids
  pub members : Text → ℤ → Reply (List ℤ)
  -- GET /users/:id/keys, the authorized-key lines
  pub user_keys : Text → ℤ → Reply (List Text)

-- golang.org/x/crypto/ssh: parsing a line to a key (as its wire form), its fingerprint, and the
-- verification of a marshalled signature over a message.
pub record Ssh : Type 0 where
  pub parse_authorized_key : Text → Option Text
  pub fingerprint : Text → Text
  -- base64 decoding, unmarshalling and verification: true where all three succeed
  pub verify_sig : Text → Text → Text → Bool
