-- ===== src/Client/Authz/Verdict.antt =====
-- authz_verdict.go: whether the author may land the changes.
use gitseal.Prelude.{
  ◌≡◌, refl, Bool, true, false, not, ◌&&◌, ◌||◌, Option, none, some, List, [], ◌∷◌, ◌++◌, Text,
  text_eq, text_key, text_eq_iff, ℤ, pos, ltb_ℤ, any, all, is_empty, if◌then◌else◌, arith,
}
use gitseal.Prelude.Dict.{lookup}
use gitseal.Prelude.Sort.{sort_texts, all-sort_texts}
use gitseal.Client.Config.{RepoConfig, min_level_for_env, listed_level, min_access_level_or_default}
use gitseal.Client.Authz.Diff.{EntryChange, distinct_envs}

abbrev pub policy_edit_min_level : ℤ
policy_edit_min_level = pos 50

-- EnvsTouched
unfoldable pub envs_touched : List EntryChange → List Text
unfolding distinct_envs sort_texts
envs_touched changes = sort_texts (distinct_envs changes [])

-- A violation, for its message; the messages' order is left out.
pub data Violation : Type 0 where
  undeclared : Text → Violation
  env_level : Text → ℤ → ℤ → Violation
  policy_level : ℤ → Violation

abbrev pub env_violation : RepoConfig → ℤ → Text → Option Text → List Violation → List Violation
env_violation rc level env none out = undeclared env ∷ out
env_violation rc level env (some cluster) out =
    if ltb_ℤ level (min_level_for_env rc env)
    then env_level env (min_level_for_env rc env) level ∷ out
    else out

unfoldable pub env_violations : RepoConfig → ℤ → List Text → List Violation
env_violations rc level [] = []
env_violations rc level (env ∷ envs) =
    env_violation rc level env (lookup env rc.env_cluster) (env_violations rc level envs)

-- AuthzVerdict
unfoldable pub authz_verdict : List EntryChange → Bool → ℤ → RepoConfig → List Violation
unfolding env_violations envs_touched
authz_verdict changes repo_yaml_touched level rc =
    env_violations rc level (envs_touched changes)
    ++ (if repo_yaml_touched && ltb_ℤ level policy_edit_min_level
        then policy_level level ∷ []
        else [])

-- AuthzResult.OK
abbrev pub is_ok : List Violation → Bool
is_ok violations = is_empty violations

abbrev declared : Option Text → Bool
declared none = false
declared (some _) = true

-- The first positive level of a list, or Developer.
abbrev pub first_positive : List ℤ → ℤ
first_positive [] = pos 30
first_positive (l ∷ ls) = if ltb_ℤ (pos 0) l then l else first_positive ls

abbrev own_level : Option ℤ → List ℤ
own_level none = []
own_level (some l) = l ∷ []

-- What an env asks for: its own level, the repository's, or Developer.
abbrev pub required_level : RepoConfig → Text → ℤ
required_level rc env =
    first_positive (own_level (lookup env rc.env_min_level) ++ rc.min_access_level ∷ [])

pub min_level_for_env_lem :
    (rc : RepoConfig) (env : Text) → min_level_for_env rc env ≡ required_level rc env
unfolding min_level_for_env min_access_level_or_default
min_level_for_env_lem rc env = by_own (lookup env rc.env_min_level)
  where
    by_own :
        (o : Option ℤ)
        → listed_level o (min_access_level_or_default rc)
          ≡ first_positive (own_level o ++ rc.min_access_level ∷ [])
    by_own none = refl
    by_own (some l) = refl

-- The env is declared and the level reaches what it asks for.
abbrev pub allowed : RepoConfig → ℤ → Text → Bool
allowed rc level env =
    declared (lookup env rc.env_cluster) && not (ltb_ℤ level (required_level rc env))

is_ok-env_violation :
    (rc : RepoConfig) (level : ℤ) (env : Text) (o : Option Text) (out : List Violation)
    → is_ok (env_violation rc level env o out)
      ≡ ((declared o && not (ltb_ℤ level (required_level rc env))) && is_ok out)
is_ok-env_violation rc level env none out = refl
is_ok-env_violation rc level env (some c) out = ground (arith, min_level_for_env_lem rc env)

is_ok-env_violations :
    (rc : RepoConfig) (level : ℤ) (envs : List Text)
    → is_ok (env_violations rc level envs) ≡ all (allowed rc level) envs
unfolding env_violations
is_ok-env_violations rc level [] = refl
is_ok-env_violations rc level (env ∷ envs) = rw (
  is_ok-env_violation rc level env (lookup env rc.env_cluster) (env_violations rc level envs),
  is_ok-env_violations rc level envs,
)

all-snoc : (p : Text → Bool) (s : Text) (ts : List Text) → all p (ts ++ s ∷ []) ≡ (all p ts && p s)
all-snoc p s [] = ground arith
all-snoc p s (t ∷ ts) = ground (arith, all-snoc p s ts)

all-seen :
    (p : Text → Bool) (s : Text) (ts : List Text)
    → any (text_eq s) ts ≡ true
    → all p ts ≡ (all p ts && p s)
all-seen p s [] h = cc
all-seen p s (t ∷ ts) h = ground (arith, all-seen p s ts, text_eq_iff s t)

all-distinct_step :
    (p : Text → Bool) (s : Text) (seen : List Text)
    → all p (if any (text_eq s) seen then seen else seen ++ s ∷ []) ≡ (all p seen && p s)
all-distinct_step p s seen = ground (arith, all-seen p s seen, all-snoc p s seen)

all-distinct_envs :
    (p : Text → Bool) (cs : List EntryChange) (seen : List Text)
    → all p (distinct_envs cs seen) ≡ (all p seen && all (λ c. p c.env) cs)
unfolding distinct_envs
all-distinct_envs p [] seen = ground arith
all-distinct_envs p (c ∷ cs) seen =
    rw
      (
        all-distinct_envs p cs (if any (text_eq c.env) seen then seen else seen ++ c.env ∷ []),
        all-distinct_step p c.env seen,
      )
      (ground arith)

is_ok-append : (xs ys : List Violation) → is_ok (xs ++ ys) ≡ (is_ok xs && is_ok ys)
is_ok-append [] ys = refl
is_ok-append (x ∷ xs) ys = refl

-- The verdict is OK exactly if each changed entry is of a declared env whose level the author reaches (the
-- env's own one where that is positive, else the repository's where that is, else 30), and the author
-- is an Owner (50) where the policy file was touched.
pub authz_verdict-is_ok :
    (changes : List EntryChange) (touched : Bool) (level : ℤ) (rc : RepoConfig)
    → is_ok (authz_verdict changes touched level rc)
      ≡ (all (λ c. allowed rc level c.env) changes && (not touched || not (ltb_ℤ level (pos 50))))
unfolding authz_verdict envs_touched
authz_verdict-is_ok changes touched level rc =
    rw
      (
        is_ok-append (env_violations rc level (envs_touched changes))
            (if touched && ltb_ℤ level policy_edit_min_level then policy_level level ∷ [] else []),
        is_ok-env_violations rc level (envs_touched changes),
        all-sort_texts (allowed rc level) (distinct_envs changes []),
        all-distinct_envs (allowed rc level) changes [],
      )
      (ground arith)
