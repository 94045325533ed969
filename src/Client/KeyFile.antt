-- ===== src/Client/KeyFile.antt =====
-- keyfile.go: the files that hold the projects' keys, and the keystore read from a directory.
pub mod Laws
use gitseal.Prelude.{
  ℕ, Bool, true, false, not, ◌||◌, ◌&&◌, Option, none, some, List, [], ◌∷◌, ◌++◌, Text, text,
  text_key, text_eq, int_key, ℤ, pos, leb_ℤ, is_empty, if◌then◌else◌, Result, ok, err, ◌>>=◌, ◌>>◌,
  refuse_if, require,
}
use gitseal.Prelude.Dict.{Dict, insert}
use gitseal.Prelude.Sort.{sort_texts}
use gitseal.Strconv.{format_int}
use gitseal.Base64
use gitseal.Age.{Age}
use gitseal.Crypto.Errors.{Error}
use gitseal.Crypto.KeyWrap.{SecretBox, unwrap_key}
use gitseal.Client.Authz.Scan.{ends_with}

-- KeyFile
pub record KeyFile : Type 0 where
  pub version : Text
  pub project_id : ℤ
  pub private_key_b64 : Text
  pub wrapped_key_b64 : Text
  pub kek_b64 : Text

pub data KeyFileError : Type 0 where
  bad_json missing_private_key missing_wrapped_key : KeyFileError
  bad_private_key bad_wrapped_key bad_kek bad_identity recipient_mismatch : KeyFileError
  bad_project_id : ℤ → KeyFileError
  unsupported_version : Text → KeyFileError
  unwrap_failed : Error → KeyFileError

abbrev pub key_file_suffix : Text
key_file_suffix = text ".key.json"

-- NewKeyFileV2
unfoldable pub new_key_file_v2 : ℤ → Text → KeyFile
new_key_file_v2 project_id identity = record {
  version = text "v2";
  project_id = project_id;
  private_key_b64 = Base64.encode identity;
  wrapped_key_b64 = [];
  kek_b64 = [];
}

-- NewKeyFile
unfoldable pub new_key_file : ℤ → Text → Text → KeyFile
new_key_file project_id wrapped kek = record {
  version = text "v1";
  project_id = project_id;
  private_key_b64 = [];
  wrapped_key_b64 = Base64.encode wrapped;
  kek_b64 = Base64.encode kek;
}

-- KeyFileName
unfoldable pub key_file_name : ℤ → Text
key_file_name project_id = format_int project_id ++ key_file_suffix

abbrev pub unwrapped : Result Error Text → Result KeyFileError Text
unwrapped (ok identity) = ok identity
unwrapped (err e) = err (unwrap_failed e)

-- the directory's files with the suffix
unfoldable pub key_file_names : List (Text × Bool) → List Text
key_file_names [] = []
key_file_names ((name, is_dir) ∷ entries) =
    let rest = key_file_names entries in
    if not is_dir && ends_with key_file_suffix name then name ∷ rest else rest

module _ (age : Age) (box : SecretBox) where
  -- the versions' cases of Identity
  unfoldable pub raw_identity : KeyFile → Result KeyFileError Text
  raw_identity kf =
      if text_eq kf.version (text "v2")
      then require (Base64.decode kf.private_key_b64) bad_private_key
      else if text_eq kf.version (text "v1")
      then (require (Base64.decode kf.wrapped_key_b64) bad_wrapped_key >>= λ wrapped.
          require (Base64.decode kf.kek_b64) bad_kek >>= λ kek.
          unwrapped (unwrap_key box wrapped kek))
      else err (unsupported_version kf.version)

  -- Identity
  unfoldable pub identity : KeyFile → Result KeyFileError Text
  unfolding raw_identity
  identity kf = do
    id ← raw_identity kf
    _parsed ← require (age.parse_identity id) bad_identity
    ok id

  -- the fields that a version needs
  abbrev pub check_fields : KeyFile → Result KeyFileError (Unit {0})
  check_fields kf =
      if text_eq kf.version (text "v2")
      then refuse_if (is_empty kf.private_key_b64) missing_private_key
      else if text_eq kf.version (text "v1")
      then refuse_if (is_empty kf.wrapped_key_b64 || is_empty kf.kek_b64) missing_wrapped_key
      else err (unsupported_version kf.version)

  -- ParseKeyFile, after json.Unmarshal
  unfoldable pub parse_key_file : Option KeyFile → Result KeyFileError KeyFile
  unfolding identity
  parse_key_file decoded = do
    kf ← require decoded bad_json
    refuse_if (leb_ℤ kf.project_id (pos 0)) (bad_project_id kf.project_id)
    _fields ← check_fields kf
    _id ← identity kf
    ok kf

  -- Verify
  unfoldable pub verify : KeyFile → Text → Result KeyFileError (Unit {0})
  unfolding identity
  verify kf expected_recipient = do
    raw ← identity kf
    id ← require (age.parse_identity raw) bad_identity
    refuse_if (not (text_eq (age.recipient_of id) expected_recipient)) recipient_mismatch
    ok tt

  -- What one file of the directory adds to the keystore and the skipped names; `decoded` is the
  -- file's content, `none` where reading or json.Unmarshal fails.
  abbrev pub add_identity :
      Text → ℤ → Result KeyFileError Text → Dict ℤ Text × List Text → Dict ℤ Text × List Text
  add_identity name project_id (ok id) (ids, skipped) = (insert project_id id ids, skipped)
  add_identity name project_id (err e) (ids, skipped) = (ids, skipped ++ name ∷ [])

  abbrev pub add_key_file :
      Text → Result KeyFileError KeyFile → Dict ℤ Text × List Text → Dict ℤ Text × List Text
  add_key_file name (err e) (ids, skipped) = (ids, skipped ++ name ∷ [])
  add_key_file name (ok kf) acc = add_identity name kf.project_id (identity kf) acc

  unfoldable pub load_names :
      (Text → Option KeyFile) → List Text → Dict ℤ Text × List Text → Dict ℤ Text × List Text
  unfolding parse_key_file identity
  load_names read [] acc = acc
  load_names read (name ∷ names) acc =
      load_names read names (add_key_file name (parse_key_file (read name)) acc)

  -- LoadKeyDir: `none` for an empty keystore, and the names that were skipped.
  unfoldable pub load_key_dir :
      (Text → Option KeyFile) → List (Text × Bool) → Option (Dict ℤ Text) × List Text
  unfolding load_names key_file_names
  load_key_dir read entries =
      let (ids, skipped) = load_names read (sort_texts (key_file_names entries)) ([], []) in
      (if is_empty ids then none else some ids, skipped)
