-- ===== src/Client/Authz/Sig.antt =====
-- authz_sig.go and sign.go: the signature of a section, and the bytes that it is over.
pub mod Laws
use gitseal.Prelude.{
  ℕ, zero, suc, ◌+◌, ◌-◌, ◌*◌, ◌/◌, ◌%◌, ◌^◌, ◌≡◌, Bool, true, false, not, ◌||◌, Option, none, some,
  List, [], ◌∷◌, ◌++◌, map, Text, text, text_key, ℤ, pos, negsuc, ltb_ℤ, is_empty, length,
  if◌then◌else◌, Result, ok, err, ◌>>=◌, ◌>>◌, refuse_if, require,
}
use gitseal.Prelude.Dict.{Dict, lookup, keys}
use gitseal.Prelude.Sort.{sort_texts}
use gitseal.Client.Bundle.{EnvSection, EnvSectionSig, or_nil}

-- putU64: eight bytes, the most significant first
unfoldable pub put_bytes : ℕ → ℕ → Text
put_bytes zero n = []
put_bytes (suc k) n = put_bytes k (n / 256) ++ (n % 256) ∷ []

abbrev pub put_u64 : ℕ → Text
put_u64 n = put_bytes 8 n

-- uint64(n) of an int64
abbrev pub to_u64 : ℤ → ℕ
to_u64 (pos n) = n
to_u64 (negsuc n) = 18446744073709551615 - n

abbrev pub put_str : Text → Text
put_str s = put_u64 (length s) ++ s

abbrev text_of : Option Text → Text
text_of none = []
text_of (some s) = s

unfoldable pub put_pairs : Dict Text Text → List Text → Text
put_pairs entries [] = []
put_pairs entries (k ∷ ks) =
    put_str k ++ (put_str (text_of (lookup k entries)) ++ put_pairs entries ks)

-- what both versions end with: the env and the pairs in the order of the keys
unfoldable pub section_frame : Text → Dict Text Text → Text
unfolding put_pairs put_bytes sort_texts
section_frame env entries =
    let ks = sort_texts (keys entries) in
    put_str env ++ (put_u64 (length ks) ++ put_pairs entries ks)

abbrev pub v3_tag : Text
v3_tag = text "gitseal-section-v1" ++ 0 ∷ []

abbrev pub v4_tag : Text
v4_tag = text "gitseal-section-v2" ++ 0 ∷ []

-- The bytes that are hashed by CanonicalSectionBytes and CanonicalSectionBytesV4.
unfoldable pub section_bytes : ℤ → Text → Dict Text Text → Text
unfolding section_frame
section_bytes project_id env entries =
    v3_tag ++ (put_u64 (to_u64 project_id) ++ section_frame env entries)

unfoldable pub section_bytes_v4 : Text → Text → Dict Text Text → Text
unfolding section_frame
section_bytes_v4 pubkey env entries = v4_tag ++ (put_str pubkey ++ section_frame env entries)

-- SignerResolver; `verify` is VerifySSHSig of a key, a message and a signature.
pub record SignerResolver : Type 0 where
  pub pub_key_for : Text → Option Text
  pub live_level_for : Text → Option ℤ
  pub verify : Text → Text → Text → Bool

pub data SigError : Type 0 where
  missing_signature unregistered bad_signature no_level : SigError
  under_level : ℤ → ℤ → SigError

abbrev present : Option EnvSectionSig → Option EnvSectionSig
present none = none
present (some s) = if is_empty s.sig || is_empty s.by then none else some s

-- verifySectionAuthz
unfoldable pub verify_section : Text → EnvSection → ℤ → SignerResolver → Result SigError (Unit {0})
verify_section msg sec min_level r = do
  s ← require (present sec.sig) missing_signature
  key ← require (r.pub_key_for s.by) unregistered
  refuse_if (not (r.verify key msg s.sig)) bad_signature
  level ← require (r.live_level_for s.by) no_level
  refuse_if (ltb_ℤ level min_level) (under_level level min_level)
  ok tt

module _ (sha256 : Text → Text) where
  -- CanonicalSectionBytes and CanonicalSectionBytesV4
  abbrev pub canonical_section_bytes : ℤ → Text → Dict Text Text → Text
  canonical_section_bytes project_id env entries = sha256 (section_bytes project_id env entries)

  abbrev pub canonical_section_bytes_v4 : Text → Text → Dict Text Text → Text
  canonical_section_bytes_v4 pubkey env entries = sha256 (section_bytes_v4 pubkey env entries)

  -- VerifySectionAuthz and VerifySectionAuthzV4
  unfoldable pub verify_section_authz :
      ℤ → Text → EnvSection → ℤ → SignerResolver → Result SigError (Unit {0})
  unfolding verify_section
  verify_section_authz project_id env sec min_level r =
      verify_section (canonical_section_bytes project_id env (or_nil sec.entries)) sec min_level r

  unfoldable pub verify_section_authz_v4 :
      Text → Text → EnvSection → ℤ → SignerResolver → Result SigError (Unit {0})
  unfolding verify_section
  verify_section_authz_v4 pubkey env sec min_level r =
      verify_section (canonical_section_bytes_v4 pubkey env (or_nil sec.entries)) sec min_level r
