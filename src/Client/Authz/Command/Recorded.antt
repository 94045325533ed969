-- ===== src/Client/Authz/Command/Recorded.antt =====
-- cmd/sealdctl/authz.go: every change is recorded under its file and env.
use gitseal.Prelude.{
  ◌≡◌, refl, Bool, true, false, some, List, [], ◌∷◌, Text, text_key, text_eq, text_eq_iff,
  text_eq_refl, any, if◌then◌else◌, arith, Memᴰ,
}
use gitseal.Prelude.Dict.{Dict, lookup, insert, lookup-insert}
use gitseal.Client.Authz.Diff.{EntryChange}
use gitseal.Client.Authz.Command.{or_none, add_env, changed_envs_by_file}

-- A file's env is recorded.
abbrev pub IsRecorded : Text → Text → Dict Text (List Text) → Type 0
IsRecorded f env found = any (text_eq env) (or_none (lookup f found)) ≡ true

add_env-new : (env : Text) (envs : List Text) → any (text_eq env) (add_env env envs) ≡ true
add_env-new env envs = ground (arith, text_eq_refl env)

add_env-old :
    (env v : Text) (envs : List Text)
    → any (text_eq env) envs ≡ true
    → any (text_eq env) (add_env v envs) ≡ true
add_env-old env v envs h = ground arith

add_env-IsRecorded :
    (c : EntryChange) (found : Dict Text (List Text))
    → IsRecorded c.file c.env (insert c.file (add_env c.env (or_none (lookup c.file found))) found)
add_env-IsRecorded c found =
    rw
      (
        lookup-insert c.file c.file (add_env c.env (or_none (lookup c.file found))) found,
        text_eq_refl c.file,
      )
      (add_env-new c.env (or_none (lookup c.file found)))

insert-IsRecorded :
    (f env : Text) (c : EntryChange) (found : Dict Text (List Text))
    → IsRecorded f env found
    → IsRecorded f env (insert c.file (add_env c.env (or_none (lookup c.file found))) found)
insert-IsRecorded f env c found h =
    rw (lookup-insert f c.file (add_env c.env (or_none (lookup c.file found))) found)
      (at_file (text_eq c.file f) refl)
  where
    at_file :
        (b : Bool)
        → text_eq c.file f ≡ b
        → any (text_eq env) (
            or_none
              (if b then some (add_env c.env (or_none (lookup c.file found))) else lookup f found))
          ≡ true
    at_file true t =
        let same : c.file ≡ f = (text_eq_iff c.file f).0 t in
        add_env-old env c.env (or_none (lookup c.file found)) (rw same h)
    at_file false t = h

later-IsRecorded :
    (f env : Text) (cs : List EntryChange) (found : Dict Text (List Text))
    → IsRecorded f env found
    → IsRecorded f env (changed_envs_by_file cs found)
unfolding changed_envs_by_file
later-IsRecorded f env [] found h = h
later-IsRecorded f env (c ∷ cs) found h =
    later-IsRecorded f env cs _ (insert-IsRecorded f env c found h)

pub changed_envs_by_file-IsRecorded :
    (c : EntryChange) (cs : List EntryChange) (found : Dict Text (List Text))
    → Memᴰ c cs
    → IsRecorded c.file c.env (changed_envs_by_file cs found)
unfolding changed_envs_by_file
changed_envs_by_file-IsRecorded c [] found m = elim m [ ]
changed_envs_by_file-IsRecorded c (d ∷ cs) found (Memᴰ.head e) =
    rw e (later-IsRecorded d.file d.env cs _ (add_env-IsRecorded d found))
changed_envs_by_file-IsRecorded c (d ∷ cs) found (Memᴰ.tail m) =
    changed_envs_by_file-IsRecorded c cs _ m
