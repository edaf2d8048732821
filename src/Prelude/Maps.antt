-- ===== src/Prelude/Maps.antt =====
-- Go maps with string keys: association lists, a key at most once. Where Go leaves the order of an
-- iteration open, the model goes through the list.
use Prim.Native.Nat.{◌+◌, ◌≤◌}
use mathlib.Core.Path.{◌≡◌, refl}
use mathlib.Core.Bool.{Bool}
use mathlib.Core.Option.{Option, none, some}
use mathlib.Core.List.{List, [], ◌∷◌}
use native.Mathlib.Omega.{arith}
use qoltanba.Prelude.Tests.{if◌then◌else◌}
use qoltanba.Prelude.Lists.{length}
use qoltanba.Prelude.Texts.{Text, text_eq, text_eq_iff, text_eq_refl}

abbrev pub Map {ℓ} : Type ℓ → Type ℓ
Map V = List (Text × V)

module _ {ℓ} {V : Type ℓ} where
  -- `m[k]`
  unfoldable pub lookup : Text → Map V → Option V
  lookup k [] = none
  lookup k ((j, v) ∷ m) = if text_eq j k then some v else lookup k m

  -- `m[k] = v`
  unfoldable pub insert : Text → V → Map V → Map V
  insert k v [] = (k, v) ∷ []
  insert k v ((j, w) ∷ m) = if text_eq j k then (k, v) ∷ m else (j, w) ∷ insert k v m

  -- `delete(m, k)`
  unfoldable pub delete : Text → Map V → Map V
  delete k [] = []
  delete k ((j, w) ∷ m) = if text_eq j k then m else (j, w) ∷ delete k m

  -- the loop that deletes every entry whose value passes the test
  unfoldable pub delete_if : (V → Bool) → Map V → Map V
  delete_if p [] = []
  delete_if p ((j, w) ∷ m) = if p w then delete_if p m else (j, w) ∷ delete_if p m

  -- a key stands at most once
  abbrev pub IsUnique : Map V → Type ℓ
  IsUnique [] = Unit
  IsUnique ((j, w) ∷ m) = (lookup j m ≡ none) × IsUnique m

  pub lookup-insert :
      (k j : Text) (v : V) (m : Map V)
      → lookup j (insert k v m) ≡ (if text_eq k j then some v else lookup j m)
  unfolding lookup insert
  lookup-insert k j v [] = refl
  lookup-insert k j v ((i, w) ∷ m) =
      ground (arith, text_eq_iff k j, text_eq_iff i k, text_eq_iff i j, lookup-insert k j v m)

  pub insert-IsUnique : (k : Text) (v : V) (m : Map V) → IsUnique m → IsUnique (insert k v m)
  unfolding lookup insert
  insert-IsUnique k v [] u = ground arith
  insert-IsUnique k v ((i, w) ∷ m) u =
      ground (arith, text_eq_iff i k, text_eq_iff k i, lookup-insert k i v m, insert-IsUnique k v m)

  -- the second of two writes under a key counts
  pub insert-insert : (k : Text) (v w : V) (m : Map V) → insert k w (insert k v m) ≡ insert k w m
  unfolding insert
  insert-insert k v w [] = ground (arith, text_eq_refl k)
  insert-insert k v w ((i, x) ∷ m) = ground (arith, text_eq_refl k, insert-insert k v w m)

  pub lookup-delete :
      (k j : Text) (m : Map V)
      → IsUnique m
      → lookup j (delete k m) ≡ (if text_eq k j then none else lookup j m)
  unfolding lookup delete
  lookup-delete k j [] u = ground arith
  lookup-delete k j ((i, w) ∷ m) u =
      ground (arith, text_eq_iff k j, text_eq_iff i k, text_eq_iff i j, lookup-delete k j m)

  pub delete-IsUnique : (k : Text) (m : Map V) → IsUnique m → IsUnique (delete k m)
  unfolding lookup delete
  delete-IsUnique k [] u = u
  delete-IsUnique k ((i, w) ∷ m) u =
      ground (arith, text_eq_iff k i, lookup-delete k i m, delete-IsUnique k m)

  lookup-delete_if-none :
      (p : V → Bool) (j : Text) (m : Map V) → lookup j m ≡ none → lookup j (delete_if p m) ≡ none
  unfolding lookup delete_if
  lookup-delete_if-none p j [] h = refl
  lookup-delete_if-none p j ((i, w) ∷ m) h = ground (arith, lookup-delete_if-none p j m)

  -- an entry survives exactly when its value fails the test
  pub lookup-delete_if :
      (p : V → Bool) (j : Text) (m : Map V)
      → IsUnique m
      → lookup j (delete_if p m)
        ≡ elim (lookup j m) [ none ↦ none | some v ↦ if p v then none else some v ]
  unfolding lookup delete_if
  lookup-delete_if p j [] u = refl
  lookup-delete_if p j ((i, w) ∷ m) u =
      ground (arith, text_eq_iff i j, lookup-delete_if p j m, lookup-delete_if-none p i m)

  pub delete_if-IsUnique : (p : V → Bool) (m : Map V) → IsUnique m → IsUnique (delete_if p m)
  unfolding delete_if
  delete_if-IsUnique p [] u = u
  delete_if-IsUnique p ((i, w) ∷ m) u =
      ground (arith, lookup-delete_if-none p i m, delete_if-IsUnique p m)

  pub length-delete_if : (p : V → Bool) (m : Map V) → length (delete_if p m) ≤ length m
  unfolding delete_if
  length-delete_if p [] = omega arith
  length-delete_if p ((i, w) ∷ m) = ground (arith, length-delete_if p m)

  pub length-delete :
      (k : Text) (m : Map V) (v : V) → lookup k m ≡ some v → length (delete k m) + 1 ≡ length m
  unfolding lookup delete
  length-delete k [] v h = absurd (ground arith)
  length-delete k ((i, w) ∷ m) v h = ground (arith, length-delete k m v)
