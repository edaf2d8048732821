-- ===== src/Prelude/Splits.antt =====
-- Go's strings.Split at a separator of one byte.
use Prim.Native.Nat.{ℕ}
use mathlib.Core.Path.{◌≡◌, refl}
use mathlib.Core.Bool.{Bool, true, not}
use mathlib.Core.List.{List, [], ◌∷◌, ◌++◌}
use native.Mathlib.Omega.{arith}
use qoltanba.Prelude.Tests.{◌==◌, if◌then◌else◌}
use qoltanba.Prelude.Lists.{all}
use qoltanba.Prelude.Texts.{Text}

abbrev pub prepend : ℕ → List Text → List Text
prepend c [] = (c ∷ []) ∷ []
prepend c (p ∷ ps) = (c ∷ p) ∷ ps

-- `strings.Split`
unfoldable pub split : ℕ → Text → List Text
split sep [] = [] ∷ []
split sep (c ∷ s) = let rest = split sep s in if c == sep then [] ∷ rest else prepend c rest

-- the separator does not occur
abbrev pub is_whole : ℕ → Text → Bool
is_whole sep s = all (λ c. not (c == sep)) s

pub split-whole : (sep : ℕ) (s : Text) → is_whole sep s ≡ true → split sep s ≡ s ∷ []
unfolding split
split-whole sep [] h = refl
split-whole sep (c ∷ s) h = ground (arith, split-whole sep s)

pub split-append :
    (sep : ℕ) (s t : Text) → is_whole sep s ≡ true → split sep (s ++ sep ∷ t) ≡ s ∷ split sep t
unfolding split
split-append sep [] t h = ground arith
split-append sep (c ∷ s) t h = ground (arith, split-append sep s t)
