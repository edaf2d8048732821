-- ===== src/Durable/Refinement.antt =====
-- Two implementations of the same operations, one of which a relation of their states refines to the
-- other: a client sees the same answers from both.
use qoltanba.Prelude.{◌≡◌, refl, List, [], ◌∷◌, All}

abbrev pub Steps : Type 0 → Type 0 → Type 0 → Type 0
Steps Op A S = Op → S → A × S

module _ {Op A S : Type 0} (step : Steps Op A S) where
  -- the answers to a sequence of operations
  unfoldable pub run : List Op → S → List A
  run [] s = []
  run (op ∷ ops) s = let (a, s') = step op s in a ∷ run ops s'

module _ {Op A S T : Type 0} (abstract_step : Steps Op A S) (step : Steps Op A T)
    (R : T → S → Type 0) (P : Op → Type 0) where
  -- each operation with the property gives the same answer and keeps the relation
  abbrev pub IsRefinement : Type 0
  IsRefinement =
      (op : Op) (t : T) (s : S)
      → P op
      → R t s
      → ((step op t).0 ≡ (abstract_step op s).0) × R (step op t).1 (abstract_step op s).1

  pub run_refines :
      (ops : List Op) (t : T) (s : S)
      → IsRefinement
      → All P ops
      → R t s
      → run step ops t ≡ run abstract_step ops s
  unfolding run
  run_refines [] t s keeps a h = refl
  run_refines (op ∷ ops) t s keeps a h =
      let (same, next) = keeps op t s a.0 h in
      let rest = run_refines ops (step op t).1 (abstract_step op s).1 keeps a.1 next in
      both same rest
    where
      both : {a b : A} {xs ys : List A} → a ≡ b → xs ≡ ys → a ∷ xs ≡ b ∷ ys
      both p q i = p i ∷ q i
