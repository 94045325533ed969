-- ===== src/Prelude/Sort.antt =====
-- sort.Strings: insertion sort by the bytes.
use mathlib.Core.Path.{◌≡◌, refl}
use mathlib.Core.Bool.{Bool, true, false, ◌||◌, ◌&&◌}
use mathlib.Core.List.{List, [], ◌∷◌}
use native.Mathlib.Omega.{arith}
use gitseal.Prelude.Tests.{ltb, eqb, if◌then◌else◌}
use gitseal.Prelude.Lists.{all, any}
use gitseal.Prelude.Texts.{Text}

unfoldable pub text_leb : Text → Text → Bool
text_leb [] t = true
text_leb (x ∷ s) [] = false
text_leb (x ∷ s) (y ∷ t) = ltb x y || (eqb x y && text_leb s t)

unfoldable pub insert_sorted : Text → List Text → List Text
insert_sorted s [] = s ∷ []
insert_sorted s (t ∷ ts) = if text_leb s t then s ∷ t ∷ ts else t ∷ insert_sorted s ts

unfoldable pub sort_texts : List Text → List Text
unfolding insert_sorted
sort_texts [] = []
sort_texts (s ∷ ss) = insert_sorted s (sort_texts ss)

-- Sorting keeps what holds of all entries.
all-insert_sorted :
    (p : Text → Bool) (s : Text) (ts : List Text) → all p (insert_sorted s ts) ≡ (p s && all p ts)
unfolding insert_sorted
all-insert_sorted p s [] = refl
all-insert_sorted p s (t ∷ ts) = ground (arith, all-insert_sorted p s ts)

pub all-sort_texts : (p : Text → Bool) (ts : List Text) → all p (sort_texts ts) ≡ all p ts
unfolding sort_texts
all-sort_texts p [] = refl
all-sort_texts p (t ∷ ts) = rw (all-insert_sorted p t (sort_texts ts), all-sort_texts p ts)

any-insert_sorted :
    (p : Text → Bool) (s : Text) (ts : List Text) → any p (insert_sorted s ts) ≡ (p s || any p ts)
unfolding insert_sorted
any-insert_sorted p s [] = refl
any-insert_sorted p s (t ∷ ts) = ground (arith, any-insert_sorted p s ts)

pub any-sort_texts : (p : Text → Bool) (ts : List Text) → any p (sort_texts ts) ≡ any p ts
unfolding sort_texts
any-sort_texts p [] = refl
any-sort_texts p (t ∷ ts) = rw (any-insert_sorted p t (sort_texts ts), any-sort_texts p ts)
