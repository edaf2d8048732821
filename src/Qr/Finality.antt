-- ===== src/Qr/Finality.antt =====
-- orchestrator.go: sessions over their whole life, in whatever order the operations are called, each
-- of them run to its end before the next one.
use qoltanba.Prelude.{
  ℕ, ◌≡◌, refl, sym, ◌∙◌, ap, subst, ◌⊎◌, inl, inr, true, false, none, some, [], Text, text_eq,
  lookup, lookup-insert, lookup-delete_if, Result, ok, err, arith, Bool-cases,
}
use qoltanba.Qr.Session.{Status, terminal, Session, Error, session_not_found, session_used}
use qoltanba.Qr.Store.{Store, is_past, reap}
use qoltanba.Qr.Orchestrator.{Orchestrator, CreateRequest}
use qoltanba.Qr.Handlers.{
  Formats, create_session, submit_signature, get_view, Deliveries, failed_with, verified_with,
}
use qoltanba.Qr.Submission.{
  consumed, used_up, Ending, stopped, rejected, accepted, submit_signature-Ending,
}
use qoltanba.Qr.Effects.{IsWell, Effect, submit_signature-Effect, get_view-Effect}
use qoltanba.Qr.Creation.{create_session_lem}
use qoltanba.Qr.Invariants.{
  insert-IsWell, delete_if-IsWell, Effect-IsWell, Effect-final, Effect-unknown, IsSpent,
  Effect-IsSpent, insert-IsSpent,
}

module _ {D T : Type 0} (o : Orchestrator D T) (formats : Formats T)
    (encode_qr : Text → Result Error Text) where
  -- one call, by whichever client; a new session has another random id than the one that is followed
  pub data Step (id : Text) (m : Store) : Store → Type 0 where
    created :
        (req : CreateRequest) (public_base fresh : Text) (nonce : Result Error Text) (now : ℕ)
        → text_eq fresh id ≡ false
        → Step id m (create_session o encode_qr m req public_base (ok fresh) nonce now).1
    submitted : (to body : Text) (now : ℕ) → Step id m (submit_signature o formats m to body now).1
    viewed : (of : Text) (now : ℕ) → Step id m (get_view o formats m of now).1
    reaped : (now : ℕ) → Step id m (reap m now).0

  pub data Reach (id : Text) (m : Store) : Store → Type 0 where
    here : Reach id m m
    next : {m' m'' : Store} → Reach id m m' → Step id m' m'' → Reach id m m''

  -- the session is as it was, or has been reaped
  abbrev pub IsKept : Text → Session → Store → Type 0
  IsKept id s m = (lookup id m ≡ some s) ⊎ (lookup id m ≡ none)

  created-keeps :
      (m : Store) (id : Text) (req : CreateRequest) (public_base fresh : Text)
      (nonce : Result Error Text) (now : ℕ)
      → text_eq fresh id ≡ false
      → IsWell m
      → IsWell (create_session o encode_qr m req public_base (ok fresh) nonce now).1
        × (lookup id (create_session o encode_qr m req public_base (ok fresh) nonce now).1
            ≡ lookup id m)
  created-keeps m id req public_base fresh nonce now other w =
      elim (create_session_lem o encode_qr m req public_base (ok fresh) nonce now) [
        | inl (e, h) ↦ subst Kept (sym (ap (λ t. t.1) h)) (w, refl)
        | inr (k, answer, s, h, drawn, named, (stands, waits, _, _, _)) ↦
            let e : fresh ≡ k = ground arith in
            subst Kept (sym (ap (λ t. t.1) h)) (
              insert-IsWell m k s w stands (inr (λ v. ground arith)),
              ground (arith, lookup-insert k id s m),
            )
      ]
    where
      Kept : Store → Type 0
      Kept m' = IsWell m' × (lookup id m' ≡ lookup id m)

  Effect-keeps :
      (id : Text) (s : Session) (m m' : Store)
      → s.used ≡ true
      → terminal s.status ≡ true
      → IsWell m
      → IsKept id s m
      → Effect m m'
      → IsWell m' × IsKept id s m'
  Effect-keeps id s m m' used over w known h = (
    Effect-IsWell m m' w h,
    elim known [
      | inl found ↦ inl (Effect-final m m' id s found used over h)
      | inr gone ↦ inr (Effect-unknown m m' id gone h)
    ],
  )

  Step-keeps :
      (id : Text) (s : Session) (m m' : Store)
      → s.used ≡ true
      → terminal s.status ≡ true
      → IsWell m × IsKept id s m
      → Step id m m'
      → IsWell m' × IsKept id s m'
  unfolding reap
  Step-keeps id s m m' used over (w, known) (created req public_base fresh nonce now other) =
      let (w', same) = created-keeps m id req public_base fresh nonce now other w in
      (w', elim known [ inl found ↦ inl (same ∙ found) | inr gone ↦ inr (same ∙ gone) ])
  Step-keeps id s m m' used over (w, known) (submitted to body now) =
      Effect-keeps id s m m' used over w known (submit_signature-Effect o formats m to body now w)
  Step-keeps id s m m' used over (w, known) (viewed of now) =
      Effect-keeps id s m m' used over w known (get_view-Effect o formats m of now w)
  Step-keeps id s m m' used over (w, known) (reaped now) = (
    delete_if-IsWell m (is_past now) w,
    elim (Bool-cases (is_past now s)) [
      | inl past ↦ inr (elim known [
        | inl found ↦ ground (arith, lookup-delete_if (is_past now) id m w.unique)
        | inr gone ↦ ground (arith, lookup-delete_if (is_past now) id m w.unique)
      ])
      | inr early ↦ elim known [
        | inl found ↦ inl (ground (arith, lookup-delete_if (is_past now) id m w.unique))
        | inr gone ↦ inr (ground (arith, lookup-delete_if (is_past now) id m w.unique))
      ]
    ],
  )

  Step-IsSpent :
      (id : Text) (m m' : Store)
      → IsWell m × IsSpent id m
      → Step id m m'
      → IsWell m' × IsSpent id m'
  unfolding reap
  Step-IsSpent id m m' (w, spent) (created req public_base fresh nonce now other) =
      let (w', same) = created-keeps m id req public_base fresh nonce now other w in
      (w', λ s found. spent s (sym same ∙ found))
  Step-IsSpent id m m' (w, spent) (submitted to body now) =
      let h = submit_signature-Effect o formats m to body now w in
      (Effect-IsWell m m' w h, Effect-IsSpent m m' id spent h)
  Step-IsSpent id m m' (w, spent) (viewed of now) =
      let h = get_view-Effect o formats m of now w in
      (Effect-IsWell m m' w h, Effect-IsSpent m m' id spent h)
  Step-IsSpent id m m' (w, spent) (reaped now) = (
    delete_if-IsWell m (is_past now) w,
    λ s found. spent s (ground (arith, lookup-delete_if (is_past now) id m w.unique)),
  )

  Reach-keeps :
      (id : Text) (s : Session) (m m' : Store)
      → s.used ≡ true
      → terminal s.status ≡ true
      → IsWell m × IsKept id s m
      → Reach id m m'
      → IsWell m' × IsKept id s m'
  Reach-keeps id s m m' used over h here = h
  Reach-keeps id s m m' used over h (next {m' = k} r step) =
      Step-keeps id s k m' used over (Reach-keeps id s m k used over h r) step

  Reach-IsSpent :
      (id : Text) (m m' : Store)
      → IsWell m × IsSpent id m
      → Reach id m m'
      → IsWell m' × IsSpent id m'
  Reach-IsSpent id m m' h here = h
  Reach-IsSpent id m m' h (next {m' = k} r step) =
      Step-IsSpent id k m' (Reach-IsSpent id m k h r) step

  -- In a store whose sessions stand under their own ids, once each, verified ones used up: a session
  -- that is verified keeps its record, its result included, through every sequence of creations
  -- (under other ids), submissions, status requests with their polls, and sweeps, until it is reaped.
  pub verified_final :
      (m m' : Store) (id : Text) (s : Session)
      → IsWell m
      → lookup id m ≡ some s
      → s.status ≡ Status.verified
      → Reach id m m'
      → IsKept id s m'
  unfolding terminal
  verified_final m m' id s w found verified r =
      let used : s.used ≡ true = elim (w.settled id s found) [
        | inl used ↦ used
        | inr apart ↦ absurd (apart verified)
      ] in
      (Reach-keeps id s m m' used (ground arith) (w, inl found) r).1

  Ending-IsSpent :
      (m : Store) (id body : Text) (now : ℕ) (s : Session)
      (r : Result Error (Unit {0}) × Store × Deliveries)
      → s.id ≡ id
      → Ending o formats m id body now s r
      → IsSpent id r.1
  Ending-IsSpent m id body now s r named (stopped e) =
      insert-IsSpent id (consumed o formats s) m refl
  Ending-IsSpent m id body now s r named (rejected e) =
      subst (λ k. IsSpent k r.1) named
        (insert-IsSpent s.id (failed_with o (consumed o formats s) e) (used_up o formats m id s)
          refl)
  Ending-IsSpent m id body now s r named (accepted impl sig raw _ _ _ _) =
      subst (λ k. IsSpent k r.1) named
        (insert-IsSpent s.id (verified_with o formats (consumed o formats s) raw)
          (used_up o formats m id s) refl)

  submit-IsSpent :
      (m : Store) (id body : Text) (now : ℕ)
      → IsWell m
      → IsWell (submit_signature o formats m id body now).1
        × IsSpent id (submit_signature o formats m id body now).1
  submit-IsSpent m id body now w = (
    Effect-IsWell m (submit_signature o formats m id body now).1 w
        (submit_signature-Effect o formats m id body now w),
    elim (submit_signature-Ending o formats m id body now) [
      | inl (unknown, h) ↦
          subst (IsSpent id) (sym (ap (λ t. t.1) h)) (λ s found. absurd (ground arith))
      | inr (s, found, inl (used, h)) ↦
          subst (IsSpent id) (sym (ap (λ t. t.1) h)) (λ t there. ground arith)
      | inr (s, found, inr (fresh, h)) ↦
          Ending-IsSpent m id body now s (submit_signature o formats m id body now)
            (w.keyed id s found) h
    ],
  )

  -- In a store whose sessions stand under their own ids, once each, verified ones used up: a session
  -- takes one submission at most. Once a signature has been submitted, whatever came of it, every
  -- later submission to the session fails as used or not found and changes nothing, whatever sessions
  -- are created (under other ids), submitted to, polled or reaped in between.
  pub submit_signature-once :
      (m m' : Store) (id body again : Text) (now later : ℕ)
      → IsWell m
      → Reach id (submit_signature o formats m id body now).1 m'
      → (submit_signature o formats m' id again later ≡ (err session_not_found, m', []))
        ⊎ (submit_signature o formats m' id again later ≡ (err session_used, m', []))
  submit_signature-once m m' id body again now later w r =
      let (w', spent) =
        Reach-IsSpent id (submit_signature o formats m id body now).1 m'
          (submit-IsSpent m id body now w) r in
      elim (submit_signature-Ending o formats m' id again later) [
        | inl (unknown, h) ↦ inl h
        | inr (s, found, inl (used, h)) ↦ inr h
        | inr (s, found, inr (fresh, h)) ↦ absurd (ground (arith, spent s found))
      ]
