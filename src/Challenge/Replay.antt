-- ===== src/Challenge/Replay.antt =====
-- store.go and challenge.go: a challenge is used at most once, in whatever order the calls come.
use Prim.Native.String.{String}
use qoltanba.Prelude.{
  ℕ, ◌≡◌, sym, subst, ◌⊎◌, inl, inr, if◌then◌else◌, true, false, none, some, Text, text_eq,
  text_eq_refl, text_eq_iff, lookup, insert, lookup-insert, insert-IsUnique, IsUnique,
  lookup-delete_if, delete_if-IsUnique, Result, err, arith, Bool-cases, Option-cases,
}
use qoltanba.Core.Contract.{VerifyInput, VerifyOutput, ValidateInput, ValidateOutput}
use qoltanba.Challenge.Store.{
  Challenge, not_found, already_used, Store, create, consume, is_past, reap,
}
use qoltanba.Challenge.Service.{Config, IssueRequest, ConfirmRequest, new_challenge, issue, confirm}

-- no challenge that could still be consumed stands under the id
abbrev pub IsSpent : Text → Store → Type 0
IsSpent id m = (c : Challenge) → lookup id m ≡ some c → c.used ≡ true

consume-IsUnique : (m : Store) (id : Text) → IsUnique m → IsUnique (consume m id).1
unfolding consume
consume-IsUnique m id u = elim (Option-cases (lookup id m)) [
  | inl unknown ↦
      let same : (consume m id).1 ≡ m = unfold consume in ground arith in
      subst IsUnique (sym same) u
  | inr (c, found) ↦ elim (Bool-cases c.used) [
    | inl used ↦
        let same : (consume m id).1 ≡ m = unfold consume in ground arith in
        subst IsUnique (sym same) u
    | inr fresh ↦
        let c' = record c { used = true } in
        let stored : (consume m id).1 ≡ insert id c' m = unfold consume in ground arith in
        subst IsUnique (sym stored) (insert-IsUnique id c' m u)
  ]
]

pub lookup-consume :
    (m : Store) (id k : Text)
    → lookup k (consume m id).1 ≡ elim (lookup k m) [
      | none ↦ none
      | some c ↦ some (if text_eq id k then record c { used = true } else c)
    ]
unfolding consume
lookup-consume m id k = elim (Option-cases (lookup id m)) [
  | inl unknown ↦ ground (arith, text_eq_iff id k)
  | inr (c, found) ↦ elim (Bool-cases c.used) [
    | inl used ↦ ground (arith, text_eq_iff id k)
    | inr fresh ↦ ground (arith, text_eq_iff id k, lookup-insert id k (record c { used = true }) m)
  ]
]

pub consume-IsSpent : (m : Store) (id : Text) → IsSpent id (consume m id).1
consume-IsSpent m id c found = ground (arith, lookup-consume m id id, text_eq_refl id)

module _ (encode : Text → Text) (validate : ValidateInput → Result String ValidateOutput)
    (verify : VerifyInput → Result String VerifyOutput) (cfg : Config) where
  -- one call that changes the store, by whichever client; a new challenge has another random id
  -- than the one that is followed
  pub data Step (id : Text) : Store → Store → Type 0 where
    issued :
        (m : Store) (req : IssueRequest) (nonce fresh : Text) (now : ℕ)
        → text_eq fresh id ≡ false
        → Step id m (issue encode cfg m req (some nonce) (some fresh) now).1
    confirmed :
        (m : Store) (req : ConfirmRequest) (now : ℕ)
        → Step id m (confirm validate verify cfg m req now).1
    reaped : (m : Store) (now : ℕ) → Step id m (reap m now).0

  pub data Reach (id : Text) (m : Store) : Store → Type 0 where
    here : Reach id m m
    next : {m' m'' : Store} → Reach id m m' → Step id m' m'' → Reach id m m''

  store-confirm :
      (m : Store) (req : ConfirmRequest) (now : ℕ)
      → (confirm validate verify cfg m req now).1 ≡ (consume m req.challenge_id).1
  unfolding confirm
  store-confirm m req now = ground arith

  Step-IsSpent :
      (id : Text) (m m' : Store)
      → IsUnique m × IsSpent id m
      → Step id m m'
      → IsUnique m' × IsSpent id m'
  unfolding issue create reap
  Step-IsSpent id m m' (u, spent) (issued _ req nonce fresh now other) =
      let c = new_challenge cfg req nonce fresh now in
      (insert-IsUnique fresh c m u, λ d found. spent d (ground (arith, lookup-insert fresh id c m)))
  Step-IsSpent id m m' (u, spent) (confirmed _ req now) =
      subst (λ s. IsUnique s × IsSpent id s) (sym (store-confirm m req now))
        (consume-IsUnique m req.challenge_id u, λ d found. still d found)
    where
      still : (d : Challenge) → lookup id (consume m req.challenge_id).1 ≡ some d → d.used ≡ true
      still d found = elim (Option-cases (lookup id m)) [
        | inl unknown ↦ absurd (ground (arith, lookup-consume m req.challenge_id id))
        | inr (c, stored) ↦ ground (arith, lookup-consume m req.challenge_id id, spent c stored)
      ]
  Step-IsSpent id m m' (u, spent) (reaped _ now) = (
    delete_if-IsUnique (is_past now) m u,
    λ d found. spent d (ground (arith, lookup-delete_if (is_past now) id m u)),
  )

  Reach-IsSpent :
      (id : Text) (m m' : Store)
      → IsUnique m × IsSpent id m
      → Reach id m m'
      → IsUnique m' × IsSpent id m'
  Reach-IsSpent id m m' h here = h
  Reach-IsSpent id m m' h (next {m' = k} r step) =
      Step-IsSpent id k m' (Reach-IsSpent id m k h r) step

  confirm-spent :
      (m : Store) (req : ConfirmRequest) (now : ℕ)
      → IsSpent req.challenge_id m
      → (confirm validate verify cfg m req now ≡ (err not_found, m))
        ⊎ (confirm validate verify cfg m req now ≡ (err already_used, m))
  unfolding confirm consume
  confirm-spent m req now spent = elim (Option-cases (lookup req.challenge_id m)) [
    | inl unknown ↦ inl (ground arith)
    | inr (c, found) ↦ let used = spent c found in inr (ground arith)
  ]

  -- In a store with distinct keys, a challenge is good for one confirmation at most: once `Confirm`
  -- has been called with an id,
  -- whatever came of it, every later call with that id fails as not found or already used and
  -- changes nothing, whatever challenges have been issued (under other ids), confirmed or reaped in
  -- between.
  pub confirm-once :
      (m m' : Store) (req again : ConfirmRequest) (now later : ℕ)
      → IsUnique m
      → again.challenge_id ≡ req.challenge_id
      → Reach req.challenge_id (confirm validate verify cfg m req now).1 m'
      → (confirm validate verify cfg m' again later ≡ (err not_found, m'))
        ⊎ (confirm validate verify cfg m' again later ≡ (err already_used, m'))
  confirm-once m m' req again now later u same r =
      let id = req.challenge_id in
      let first : IsUnique (consume m id).1 × IsSpent id (consume m id).1 =
        (consume-IsUnique m id u, consume-IsSpent m id) in
      let spent =
        Reach-IsSpent id (confirm validate verify cfg m req now).1 m'
          (subst (λ s. IsUnique s × IsSpent id s) (sym (store-confirm m req now)) first) r in
      confirm-spent m' again later (subst (λ k. IsSpent k m') (sym same) spent.1)
