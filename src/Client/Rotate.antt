-- ===== src/Client/Rotate.antt =====
-- rotate.go: taking a key out of every section, so that the next seal writes it afresh.
pub mod Laws
use gitseal.Prelude.{
  ℕ, suc, Bool, true, false, not, Option, none, some, List, [], ◌∷◌, Text, text_key, Result, ok,
  ◌>>=◌, ◌>>◌, refuse_if, if◌then◌else◌,
}
use gitseal.Prelude.Dict.{Dict, lookup, erase}
use gitseal.Client.Bundle.{EnvSection, SealedBundle, or_nil, is_per_env_version}
use gitseal.Client.Author.Reseal.{is_there}

pub data RotateError : Type 0 where
  not_per_env : Text → RotateError

abbrev pub strip_section : Text → EnvSection → EnvSection
strip_section key sec =
    if is_there (lookup key (or_nil sec.entries))
    then record sec { entries = some (erase key (or_nil sec.entries)) }
    else sec

-- The loop over the sections.
unfoldable pub strip_sections : Text → Dict Text EnvSection → Dict Text EnvSection
strip_sections key [] = []
strip_sections key ((env, sec) ∷ envs) = (env, strip_section key sec) ∷ strip_sections key envs

-- how many sections held the key
unfoldable pub count_removed : Text → Dict Text EnvSection → ℕ
count_removed key [] = 0
count_removed key ((env, sec) ∷ envs) =
    let rest = count_removed key envs in
    if is_there (lookup key (or_nil sec.entries)) then suc rest else rest

-- StripKeyFromBundle: the bundle at the path afterwards, and the count. With a count of zero nothing
-- is written, and the bundle is as it was.
unfoldable pub strip_key_from_bundle : SealedBundle → Text → Result RotateError (SealedBundle × ℕ)
unfolding strip_sections count_removed
strip_key_from_bundle b key = do
  refuse_if (not (is_per_env_version b.version)) (not_per_env b.version)
  ok (
    record b { envs = some (strip_sections key (or_nil b.envs)) },
    count_removed key (or_nil b.envs),
  )
