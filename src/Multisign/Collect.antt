-- ===== src/Multisign/Collect.antt =====
-- multisign.go, the loop of `Submit`: what it keeps, what it adds, and whom it lets in.
use qoltanba.Prelude.{
  ℕ, suc, ◌+◌, ◌≡◌, ◌≢◌, refl, ◌∙◌, ◌⊎◌, inl, inr, Bool, true, false, not, ◌&&◌, Option, some, List,
  [], ◌∷◌, ◌++◌, append_assoc, append-nil, length, get_elem?, All, All-append, Text, text_eq_iff,
  is_empty, ok, ok-injective, subst, arith, Bool-cases, Option-cases,
}
use mathlib.Core.List.{Memᴰ}
use qoltanba.Core.Contract.{ReportSigner}
use qoltanba.Multisign.Session.{
  Required, Signature, satisfied, already_collected, signature_identity, signer_identity, matches,
  first_open, record_signature,
}
use qoltanba.Multisign.Service.{collect, is_unmet}

-- the signatures belong to different signers
abbrev pub IsDistinct : List Signature → Type 0
IsDistinct [] = Unit
IsDistinct (c ∷ cs) = All (λ d. signature_identity d ≢ signature_identity c) cs × IsDistinct cs

-- no requirement is fulfilled by two signatures
abbrev pub HasOneEach : List Signature → Type 0
HasOneEach [] = Unit
HasOneEach (c ∷ cs) =
    All (λ d. (k : ℕ) → c.satisfies ≡ some k → d.satisfies ≢ some k) cs × HasOneEach cs

already_collected-All :
    (cs : List Signature) (x : ReportSigner)
    → already_collected cs x ≡ false
    → All (λ d. signer_identity x ≢ signature_identity d) cs
unfolding already_collected
already_collected-All [] x h = tt
already_collected-All (c ∷ cs) x h = (
  λ e. absurd (ground (arith, text_eq_iff (signature_identity c) (signer_identity x))),
  already_collected-All cs x (ground arith),
)

IsDistinct-snoc :
    (cs : List Signature) (c : Signature)
    → IsDistinct cs
    → All (λ d. signature_identity c ≢ signature_identity d) cs
    → IsDistinct (cs ++ c ∷ [])
IsDistinct-snoc [] c d h = (tt, tt)
IsDistinct-snoc (b ∷ cs) c d h =
    (All-append _ cs (c ∷ []) d.0 (h.0, tt), IsDistinct-snoc cs c d.1 h.1)

HasOneEach-snoc :
    (cs : List Signature) (e : Signature)
    → HasOneEach cs
    → ((k : ℕ) → e.satisfies ≡ some k → All (λ b. b.satisfies ≢ some k) cs)
    → HasOneEach (cs ++ e ∷ [])
HasOneEach-snoc [] e h g = (tt, tt)
HasOneEach-snoc (b ∷ cs) e h g = (
  All-append _ cs (e ∷ []) h.0 ((λ k p q. (g k q).0 p), tt),
  HasOneEach-snoc cs e h.1 (λ k q. (g k q).1),
)

satisfied-All :
    (cs : List Signature) (k : ℕ) → satisfied cs k ≡ false → All (λ b. b.satisfies ≢ some k) cs
unfolding satisfied
satisfied-All [] k h = tt
satisfied-All (c ∷ cs) k h = (λ e. absurd (ground arith), satisfied-All cs k (ground arith))

-- the requirement that `first_open` finds is open and matches
first_open_sound :
    (f : Text → Text → Bool) (cs : List Signature) (x : ReportSigner) (i : ℕ) (rs : List Required)
    (k : ℕ)
    → first_open f cs x i rs ≡ some k
    → (satisfied cs k ≡ false)
      × ((j : ℕ) × (r : Required) × (k ≡ i + j)
          × (get_elem? rs j ≡ some r)
          × (matches f r x ≡ true))
unfolding first_open
first_open_sound f cs x i [] k h = absurd (ground arith)
first_open_sound f cs x i (r ∷ rs) k h = elim (Bool-cases (not (satisfied cs i) && matches f r x)) [
  | inl here ↦
      let e : i ≡ k = ground arith in
      (rw (← e) (ground arith), (0, r, ground arith, refl, ground arith))
  | inr next ↦
      let (unmet, (j, r', place, found, fits)) =
        first_open_sound f cs x (suc i) rs k (ground arith) in
      (unmet, (suc j, r', omega arith, found, fits))
]

module _ (f : Text → Text → Bool) (rs : List Required) (now : ℕ) where
  abbrev entry_of : List Signature → ReportSigner → Signature
  entry_of cs x = record_signature f rs cs x now

  -- one round of a loop that succeeds: the signer is known already, or is added
  collect-step :
      (x : ReportSigner) (xs : List ReportSigner) (cs : List Signature) (n : ℕ)
      (r : List Signature × ℕ)
      → collect f rs now (x ∷ xs) cs n ≡ ok r
      → ((already_collected cs x ≡ true) × (collect f rs now xs cs n ≡ ok r))
        ⊎ ((already_collected cs x ≡ false)
            × ((is_empty rs ≡ true) ⊎ (is_unmet (entry_of cs x).satisfies ≡ false))
            × (collect f rs now xs (cs ++ entry_of cs x ∷ []) (n + 1) ≡ ok r))
  unfolding collect
  collect-step x xs cs n r h = elim (Bool-cases (already_collected cs x)) [
    | inl known ↦ inl (known, ground arith)
    | inr fresh ↦ elim (Bool-cases (is_empty rs)) [
      | inl anyone ↦ inr (fresh, inl anyone, ground arith)
      | inr closed ↦ elim (Bool-cases (is_unmet (entry_of cs x).satisfies)) [
        | inl unmet ↦ absurd (ground arith)
        | inr met ↦ inr (fresh, inr met, ground arith)
      ]
    ]
  ]

  -- the loop keeps the signers apart
  pub collect-IsDistinct :
      (xs : List ReportSigner) (cs : List Signature) (n : ℕ) (r : List Signature × ℕ)
      → collect f rs now xs cs n ≡ ok r
      → IsDistinct cs
      → IsDistinct r.0
  unfolding record_signature
  collect-IsDistinct [] cs n r h d =
      unfold collect in subst (λ p. IsDistinct p.0) (ok-injective (cs, n) r h) d
  collect-IsDistinct (x ∷ xs) cs n r h d = elim (collect-step x xs cs n r h) [
    | inl (known, rest) ↦ collect-IsDistinct xs cs n r rest d
    | inr (fresh, met, rest) ↦
        collect-IsDistinct xs (cs ++ entry_of cs x ∷ []) (n + 1) r rest
          (IsDistinct-snoc cs (entry_of cs x) d (already_collected-All cs x fresh))
  ]

  -- the loop fulfils no requirement twice
  pub collect-HasOneEach :
      (xs : List ReportSigner) (cs : List Signature) (n : ℕ) (r : List Signature × ℕ)
      → collect f rs now xs cs n ≡ ok r
      → HasOneEach cs
      → HasOneEach r.0
  unfolding record_signature
  collect-HasOneEach [] cs n r h d =
      unfold collect in subst (λ p. HasOneEach p.0) (ok-injective (cs, n) r h) d
  collect-HasOneEach (x ∷ xs) cs n r h d = elim (collect-step x xs cs n r h) [
    | inl (known, rest) ↦ collect-HasOneEach xs cs n r rest d
    | inr (fresh, met, rest) ↦ collect-HasOneEach xs (cs ++ entry_of cs x ∷ []) (n + 1) r rest (
        HasOneEach-snoc cs (entry_of cs x) d
          (λ k e. satisfied-All cs k (first_open_sound f cs x 0 rs k e).0))
  ]

  -- the signature is that of a signer of the container `ys` whom a requirement names
  abbrev pub IsInvited : List ReportSigner → Signature → Type 0
  IsInvited ys e =
      (x : ReportSigner) × (k : ℕ) × (r : Required) × Memᴰ x ys
      × (e.satisfies ≡ some k)
      × (get_elem? rs k ≡ some r)
      × (matches f r x ≡ true)
      × (signature_identity e ≡ signer_identity x)

  is_met :
      (o : Option ℕ)
      → is_empty rs ≡ false
      → (is_empty rs ≡ true) ⊎ (is_unmet o ≡ false)
      → is_unmet o ≡ false
  is_met o named h = ground arith

  entry_of-IsInvited :
      (ys : List ReportSigner) (cs : List Signature) (x : ReportSigner)
      → Memᴰ x ys
      → is_unmet (entry_of cs x).satisfies ≡ false
      → IsInvited ys (entry_of cs x)
  unfolding record_signature
  entry_of-IsInvited ys cs x m h = elim (Option-cases (first_open f cs x 0 rs)) [
    | inl unmet ↦ absurd (ground arith)
    | inr (k, e) ↦
        let (_, (j, r, place, found, fits)) = first_open_sound f cs x 0 rs k e in
        let same : j ≡ k = omega arith in (x, k, r, m, e, rw (← same) found, fits, refl)
  ]

  -- what the loop over signers of `ys` returns: the old signatures, then the added ones, as many as
  -- it counted; where requirements are named, each added one fulfils one of them
  pub collect-added :
      (ys xs : List ReportSigner) (cs : List Signature) (n : ℕ) (r : List Signature × ℕ)
      → All (λ x. Memᴰ x ys) xs
      → collect f rs now xs cs n ≡ ok r
      → (added : List Signature) × (r.0 ≡ cs ++ added)
        × (r.1 ≡ n + length added)
        × (is_empty rs ≡ false → All (IsInvited ys) added)
  collect-added ys [] cs n r m h =
      unfold collect in ([], ground (arith, append-nil cs), ground arith, λ named. tt)
  collect-added ys (x ∷ xs) cs n r m h = elim (collect-step x xs cs n r h) [
    | inl (known, rest) ↦ collect-added ys xs cs n r m.1 rest
    | inr (fresh, met, rest) ↦
        let e = entry_of cs x in
        let (added, l, k, invited) = collect-added ys xs (cs ++ e ∷ []) (n + 1) r m.1 rest in
        (
          e ∷ added,
          l ∙ append_assoc cs (e ∷ []) added,
          omega arith,
          λ named. (
            entry_of-IsInvited ys cs x m.0 (is_met (entry_of cs x).satisfies named met),
            invited named,
          ),
        )
  ]
