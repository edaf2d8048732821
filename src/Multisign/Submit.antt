-- ===== src/Multisign/Submit.antt =====
-- multisign.go, `Submit` and `Create` as a whole: the invariant of a session, what a submission
-- that succeeds has added, and what one that fails leaves behind.
use Prim.Native.String.{String}
use qoltanba.Prelude.{
  ℕ, ◌<◌, ◌≤◌, ◌≡◌, ◌↔◌, refl, sym, ◌∙◌, ap, subst, ◌⊎◌, inl, inr, ltb, Bool, true, false, not,
  ◌&&◌, some, List, [], ◌∷◌, ◌++◌, length, All, Text, is_empty, any, text_eq, text_eq→eq, lookup,
  insert, Result, ok, err, arith, Bool-cases, Option-cases, Result-cases,
}
use mathlib.Core.List.{Memᴰ}
use qoltanba.Core.Contract.{SignatureFormat, ReportSigner, VerifyInput, VerifyOutput}
use qoltanba.Multisign.Session.{
  pending, complete, expired, Signature, Session, is_complete, contains_all, record_signature,
  signature_identity, signer_identity,
}
use qoltanba.Multisign.Service.{
  Error, Store, store_get, store_save, get, collect, conclude, signers_of, accept_signers, accept,
  submit, settle, is_pending, CreateRequest, check_request, create, seed, opened,
}
use qoltanba.Multisign.Collect.{
  IsDistinct, HasOneEach, IsInvited, collect-added, collect-IsDistinct, collect-HasOneEach,
}

-- the bookkeeping of a session: its signers are distinct, no requirement is fulfilled twice, and it
-- is marked complete exactly when its requirements are met
pub record IsSound (s : Session) : Type 0 where
  pub distinct : IsDistinct s.collected
  pub one_each : HasOneEach s.collected
  pub marked : (s.status ≡ complete) ↔ (is_complete s ≡ true)

module _ (f : Text → Text → Bool) where
  accept_signers-ok :
      (s : Session) (c : Text) (now : ℕ) (xs : List ReportSigner) (s' : Session)
      → accept_signers f s c now xs ≡ ok s'
      → (r : List Signature × ℕ) × (contains_all xs s.collected ≡ true)
        × (collect f s.required now xs s.collected 0 ≡ ok r)
        × (0 < r.1)
        × (settle (record s { collected = r.0; container = c }) ≡ s')
  unfolding accept_signers conclude
  accept_signers-ok s c now xs s' h = elim (Bool-cases (contains_all xs s.collected)) [
    | inr lost ↦ absurd (ground arith)
    | inl kept ↦ elim (Result-cases (collect f s.required now xs s.collected 0)) [
      | inr (e, refused) ↦ absurd (ground arith)
      | inl ((cs, n), done) ↦ ((cs, n), kept, done, ground arith, ground arith)
    ]
  ]

  settle-marked :
      (s : Session)
      → s.status ≡ pending
      → ((settle s).status ≡ complete) ↔ (is_complete (settle s) ≡ true)
  unfolding is_complete
  settle-marked s p = ground arith

  module _ (verify : VerifyInput → Result String VerifyOutput) where
    submit-ok :
        (m : Store) (id c : Text) (now : ℕ) (s s' : Session) (m' : Store)
        → lookup id m ≡ some s
        → submit f verify m id c now ≡ (ok s', m')
        → (s.status ≡ pending)
          × (now < s.expires_at)
          × ((xs : List ReportSigner) × (signers_of verify s c ≡ ok xs)
              × (accept_signers f s c now xs ≡ ok s')
              × (store_save m s' ≡ ok m'))
    unfolding submit accept get store_get
    submit-ok m id c now s s' m' found h =
        elim (Bool-cases (is_pending s.status && not (ltb now s.expires_at))) [
          | inl late ↦ absurd (ground arith)
          | inr on_time ↦ elim (Bool-cases (is_pending s.status)) [
            | inr closed ↦ absurd (ground arith)
            | inl open_ ↦ elim (Result-cases (signers_of verify s c)) [
              | inr (e, refused) ↦ absurd (ground arith)
              | inl (xs, signed) ↦ elim (Result-cases (accept_signers f s c now xs)) [
                | inr (e, refused) ↦ absurd (ground arith)
                | inl (s'', done) ↦ elim (Result-cases (store_save m s'')) [
                  | inr (e, refused) ↦ absurd (ground arith)
                  | inl (m'', saved) ↦
                      (ground arith, ground arith, (xs, signed, ground arith, ground arith))
                ]
              ]
            ]
          ]
        ]

-- every collected signature is that of one of the signers
abbrev pub AreStillThere : List ReportSigner → List Signature → Type 0
AreStillThere xs cs =
    All (λ d. (x : ReportSigner) × Memᴰ x xs × (signer_identity x ≡ signature_identity d)) cs

present :
    (xs : List ReportSigner) (d : Signature)
    → any (λ x. text_eq (signer_identity x) (signature_identity d)) xs ≡ true
    → (x : ReportSigner) × Memᴰ x xs × (signer_identity x ≡ signature_identity d)
present [] d h = absurd (ground arith)
present (x ∷ xs) d h = elim (Bool-cases (text_eq (signer_identity x) (signature_identity d))) [
  | inl same ↦ (x, Memᴰ.head refl, text_eq→eq _ _ same)
  | inr other ↦ let (y, m, e) = present xs d (ground arith) in (y, Memᴰ.tail m, e)
]

contains_all-AreStillThere :
    (xs : List ReportSigner) (cs : List Signature) → contains_all xs cs ≡ true → AreStillThere xs cs
unfolding contains_all
contains_all-AreStillThere xs [] h = tt
contains_all-AreStillThere xs (c ∷ cs) h =
    (present xs c (ground arith), contains_all-AreStillThere xs cs (ground arith))

All-members : (xs : List ReportSigner) → All (λ x. Memᴰ x xs) xs
All-members [] = tt
All-members (x ∷ xs) = (Memᴰ.head refl, weaken xs (All-members xs))
  where
    weaken : (ys : List ReportSigner) → All (λ y. Memᴰ y xs) ys → All (λ y. Memᴰ y (x ∷ xs)) ys
    weaken [] h = tt
    weaken (y ∷ ys) h = (Memᴰ.tail h.0, weaken ys h.1)

settle_fields :
    (s : Session) → ((settle s).collected ≡ s.collected) × ((settle s).container ≡ s.container)
settle_fields s = ground arith

module _ (f : Text → Text → Bool) (verify : VerifyInput → Result String VerifyOutput) where
  -- A submission that succeeds was made to a pending session before its deadline, with a container
  -- that the verifier accepts. The container still holds every signer collected before; the
  -- session's list grows by at least one signature and keeps the old ones in place; and where the
  -- session names its participants, each added signature is that of a signer of the container whom
  -- the requirement it fulfils names.
  pub submit-extends :
      (m : Store) (id c : Text) (now : ℕ) (s s' : Session) (m' : Store)
      → lookup id m ≡ some s
      → submit f verify m id c now ≡ (ok s', m')
      → (s.status ≡ pending)
        × (now < s.expires_at)
        × (s'.container ≡ c)
        × ((xs : List ReportSigner) × (added : List Signature) × (signers_of verify s c ≡ ok xs)
            × AreStillThere xs s.collected
            × (s'.collected ≡ s.collected ++ added)
            × (0 < length added)
            × (is_empty s.required ≡ false → All (IsInvited f s.required now xs) added))
  submit-extends m id c now s s' m' found h =
      let (open_, on_time, (xs, signed, accepted, saved)) =
        submit-ok f verify m id c now s s' m' found h in
      let (r, kept, done, grew, e) = accept_signers-ok f s c now xs s' accepted in
      let (added, l, k, invited) =
        collect-added f s.required now xs xs s.collected 0 r (All-members xs) done in
      let (same, held) = settle_fields (record s { collected = r.0; container = c }) in
      (
        open_,
        on_time,
        sym (ap (λ t. t.container) e) ∙ held,
        (
          xs,
          added,
          signed,
          contains_all-AreStillThere xs s.collected kept,
          sym (ap (λ t. t.collected) e) ∙ same ∙ l,
          omega arith,
          invited,
        ),
      )

  -- A submission that succeeds keeps the session sound: its signers distinct, no requirement
  -- fulfilled twice, and "complete" the mark of exactly the sessions whose requirements are met.
  pub submit-IsSound :
      (m : Store) (id c : Text) (now : ℕ) (s s' : Session) (m' : Store)
      → lookup id m ≡ some s
      → submit f verify m id c now ≡ (ok s', m')
      → IsSound s
      → IsSound s'
  submit-IsSound m id c now s s' m' found h sound =
      let (open_, on_time, (xs, signed, accepted, saved)) =
        submit-ok f verify m id c now s s' m' found h in
      let (r, kept, done, grew, e) = accept_signers-ok f s c now xs s' accepted in
      let t : Session = record s { collected = r.0; container = c } in
      let same = (settle_fields t).0 in
      subst IsSound e (record {
        distinct =
            subst IsDistinct (sym same)
              (collect-IsDistinct f s.required now xs s.collected 0 r done sound.distinct);
        one_each =
            subst HasOneEach (sym same)
              (collect-HasOneEach f s.required now xs s.collected 0 r done sound.one_each);
        marked = settle-marked f t open_;
      })

  -- A submission that fails leaves the store as it was, unless the session was pending past its
  -- deadline: then it is stored as expired, and nothing else of it changes.
  pub submit_refused :
      (m : Store) (id c : Text) (now : ℕ) (e : Error) (m' : Store)
      → submit f verify m id c now ≡ (err e, m')
      → (m' ≡ m)
        ⊎ ((s : Session) × (lookup id m ≡ some s)
            × (s.status ≡ pending)
            × (s.expires_at ≤ now)
            × (m' ≡ insert s.id (record s { status = expired }) m))
  unfolding submit get store_get store_save
  submit_refused m id c now e m' h = elim (Option-cases (lookup id m)) [
    | inl unknown ↦ inl (ground arith)
    | inr (s, found) ↦ elim (Bool-cases (is_pending s.status && not (ltb now s.expires_at))) [
      | inr on_time ↦ inl (ground arith)
      | inl late ↦ elim (Option-cases (lookup s.id m)) [
        | inl unsaved ↦ inl (ground arith)
        | inr (old, saved) ↦ inr (s, found, ground arith, ground arith, ground arith)
      ]
    ]
  ]

  -- A flaw of `Create`: a container whose verified signers are one person twice completes a session
  -- that asks for two signers, and the collected signatures are not distinct.
  pub create-counts_twice :
      (m : Store) (req : CreateRequest) (format : SignatureFormat) (id : Text) (now ttl : ℕ)
      (x : ReportSigner)
      → check_request req ≡ ok format
      → req.required ≡ []
      → req.min_signers ≡ 2
      → is_empty req.container ≡ false
      → signers_of verify (opened req format id now ttl) req.container ≡ ok (x ∷ x ∷ [])
      → (s : Session) × ((create f verify m req (some id) now ttl).0 ≡ ok s)
        × (s.status ≡ complete)
        × (¬ IsDistinct s.collected)
  unfolding create seed is_complete record_signature
  create-counts_twice m req format id now ttl x checked r n c signed =
      let sess : Session = record (opened req format id now ttl) {
        status = complete;
        collected = seed f req.required now [] (x ∷ x ∷ []);
      } in
      (sess, ground arith, refl, λ d. d.0.0 refl)
