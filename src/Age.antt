-- ===== src/Age.antt =====
-- The parts of filippo.io/age that the program calls, as an interface: a parsed X25519 recipient or
-- identity is the text that its `String` method prints, and `coins` is the randomness of an
-- encryption. The laws are what the library documents.
pub mod Toy
use gitseal.Prelude.{
  ℕ, ◌≡◌, Bool, true, false, Option, none, some, List, [], ◌∷◌, ◌||◌, Text, text_eq, any, is_empty,
  All, ◌<◌,
}
use gitseal.Strconv.{IsSolid}
use gitseal.Base64.{IsByte}

pub record Age : Type 0 where
  -- ParseX25519Recipient, ParseX25519Identity
  pub parse_recipient : Text → Option Text
  pub parse_identity : Text → Option Text
  -- identity.Recipient().String()
  pub recipient_of : Text → Text
  -- Encrypt with the parsed recipients, the plaintext written and the writer closed
  pub encrypt : ℕ → List Text → Text → Option Text
  -- Decrypt with a parsed identity, the reader read to its end
  pub decrypt : Text → Text → Option Text
  -- ExtractHeader
  pub extract_header : Text → Option Text

abbrev pub listed : Text → List Text → Bool
listed r = any (text_eq r)

pub record AgeLaws (age : Age) : Type 0 where
  -- A recipient is written in Bech32: it is not empty, and ASCII with no white space.
  pub bech32 :
      (r parsed : Text) → age.parse_recipient r ≡ some parsed → (is_empty r ≡ false) × All IsSolid r
  -- Bech32 is ASCII, and so is what is printed of a parsed recipient.
  pub ascii :
      (r parsed : Text)
      → age.parse_recipient r ≡ some parsed
      → All (λ c. c < 128) r × All (λ c. c < 128) parsed
  -- A file is a sequence of bytes, when the plaintext is one.
  pub bytes :
      (coins : ℕ) (rs : List Text) (plain c : Text)
      → age.encrypt coins rs plain ≡ some c
      → All IsByte plain
      → All (λ r. All (λ b. b < 128) r) rs
      → All IsByte c
  -- Encryption to at least one recipient succeeds.
  pub encrypts :
      (coins : ℕ) (rs : List Text) (plain : Text)
      → is_empty rs ≡ false
      → (c : Text) × (age.encrypt coins rs plain ≡ some c)
  -- An identity whose recipient is listed opens the file.
  pub opens :
      (coins : ℕ) (rs : List Text) (plain c id : Text)
      → age.encrypt coins rs plain ≡ some c
      → listed (age.recipient_of id) rs ≡ true
      → age.decrypt id c ≡ some plain

abbrev pub toy : Age
toy = record {
  parse_recipient = Toy.parse;
  parse_identity = Toy.parse;
  recipient_of = λ id. id;
  encrypt = Toy.encrypt;
  decrypt = Toy.decrypt;
  extract_header = Toy.extract_header;
}

-- The interface's laws can be met.
pub toy-AgeLaws : AgeLaws toy
toy-AgeLaws = record {
  bech32 = Toy.parse_text;
  ascii = Toy.parse_ascii;
  bytes = Toy.encrypt_bytes;
  encrypts = Toy.encrypt_some;
  opens = λ coins rs plain c id e m. rw m at (Toy.decrypt-encrypt coins rs plain c id e);
}
