-- ===== src/Qr/Submission.antt =====
-- orchestrator.go: what a submission that is accepted has shown.
use qoltanba.Prelude.{
  ℕ, ◌≡◌, sym, ◌∙◌, subst, ◌⊎◌, inl, inr, true, false, none, some, List, [], ◌∷◌, Text, is_empty,
  lookup, insert, Result, ok, err, arith, Result-cases, Option-cases, Bool-cases, List-cases,
}
use qoltanba.Core.Contract.{VerifyOutput, ValidateOutput, Signer, Claims}
use qoltanba.Qr.Session.{
  session_not_found, session_used, Session, Error, Profiler, is_panic, session_expired,
  unsupported_profile,
}
use qoltanba.Qr.Store.{Store, consume, save, is_past}
use qoltanba.Qr.Orchestrator.{Orchestrator}
use qoltanba.Qr.Handlers.{
  Formats, signature_query, ocsp_query, looks_pem, result_for, check_revocation, verify, complete,
  verified_with, submit_signature, fail, fire_webhook, failed_with, Deliveries,
}

module _ {D T : Type 0} (o : Orchestrator D T) (formats : Formats T) where
  -- the revocation check passed, where one is due
  abbrev pub IsCleared : Signer → Type 0
  IsCleared x =
      (o.cfg.require_ocsp ≡ false)
      ⊎ ((out : ValidateOutput) × (o.validator (ocsp_query x) ≡ ok out)
          × (out.status.revoked ≡ false))

  -- the domain found the signature valid, its first signer has an identity and is cleared, and the
  -- result is made of them
  abbrev pub IsAccepted : Session → Text → Text → Type 0
  IsAccepted s sig raw =
      (out : VerifyOutput) × (x : Signer) × (xs : List Signer) × (claims : Claims) × (o.verifier
          (signature_query (looks_pem formats.trim_space sig) s sig)
        ≡ ok out)
      × (out.valid ≡ true)
      × (out.signers ≡ x ∷ xs)
      × (x.claims ≡ some claims)
      × (is_empty claims.sub ≡ false)
      × IsCleared x
      × (result_for o formats s sig out x claims ≡ ok raw)

  check_revocation_sound : (x : Signer) → check_revocation o x ≡ ok tt → IsCleared x
  unfolding check_revocation
  check_revocation_sound x h = elim (Bool-cases o.cfg.require_ocsp) [
    | inr unasked ↦ inl unasked
    | inl asked ↦ elim (Result-cases (o.validator (ocsp_query x))) [
      | inr (e, failed) ↦ absurd (ground arith)
      | inl (out, answered) ↦ inr (out, answered, ground arith)
    ]
  ]

  verify_sound :
      (s : Session) (sig raw : Text) → verify o formats s sig ≡ ok raw → IsAccepted s sig raw
  unfolding verify
  verify_sound s sig raw h =
      elim (Result-cases (o.verifier (signature_query (looks_pem formats.trim_space sig) s sig))) [
        | inr (e, failed) ↦ absurd (ground arith)
        | inl (out, answered) ↦ elim (List-cases out.signers) [
          | inl nobody ↦ absurd (ground arith)
          | inr (x, xs, signers) ↦ elim (Option-cases x.claims) [
            | inl anonymous ↦ absurd (ground arith)
            | inr (claims, named) ↦ elim (Result-cases (check_revocation o x)) [
              | inr (e, refused) ↦ absurd (ground arith)
              | inl (done, clear) ↦ (
                out,
                x,
                xs,
                claims,
                answered,
                ground arith,
                signers,
                named,
                ground arith,
                check_revocation_sound x clear,
                ground arith,
              )
            ]
          ]
        ]
      ]

  abbrev pub consumed : Session → Session
  consumed s = record s { used = true }

  -- how a submission to an unused session ends
  pub data Ending (m : Store) (id body : Text) (now : ℕ) (s : Session)
      : Result Error (Unit {0}) × Store × Deliveries → Type 0 where
    stopped : (e : Error) → Ending m id body now s (err e, insert id (consumed s) m, [])
    rejected :
        (e : Error)
        → Ending m id body now s (
          err e,
          insert s.id (failed_with o (consumed s) e) (insert id (consumed s) m),
          fire_webhook o (failed_with o (consumed s) e),
        )
    accepted :
        (impl : Profiler D) (sig raw : Text)
        → is_past now s ≡ false
        → lookup s.profile o.profiles ≡ some impl
        → impl.parse_app_signature (consumed s) body ≡ ok sig
        → IsAccepted (consumed s) sig raw
        → Ending m id body now s (
          ok tt,
          insert s.id (verified_with o formats (consumed s) raw) (insert id (consumed s) m),
          fire_webhook o (verified_with o formats (consumed s) raw),
        )

  pub complete_lem :
      (m : Store) (s : Session) (sig : Text)
      → ((raw : Text) × (verify o formats s sig ≡ ok raw)
          × (complete o formats m s sig ≡ (
            ok tt,
            insert s.id (verified_with o formats s raw) m,
            fire_webhook o (verified_with o formats s raw),
          )))
        ⊎ ((e : Error) × (complete o formats m s sig
              ≡ (err e, insert s.id (failed_with o s e) m, fire_webhook o (failed_with o s e))))
        ⊎ ((e : Error) × (complete o formats m s sig ≡ (err e, m, [])))
  unfolding complete fail save
  complete_lem m s sig = elim (Result-cases (verify o formats s sig)) [
    | inl (raw, h) ↦ inl (raw, h, ground arith)
    | inr (e, h) ↦ elim (Bool-cases (is_panic e)) [
      | inl panics ↦ inr (inr (e, ground arith))
      | inr returns ↦ inr (inl (e, ground arith))
    ]
  ]

  -- the store once the session has been consumed
  abbrev pub used_up : Store → Text → Session → Store
  used_up m id s = insert id (consumed s) m

  submit_lem :
      (m : Store) (id body : Text) (now : ℕ) (s : Session)
      → lookup id m ≡ some s
      → s.used ≡ false
      → Ending m id body now s (submit_signature o formats m id body now)
  unfolding submit_signature consume fail save
  submit_lem m id body now s found fresh = elim (Bool-cases (is_past now s)) [
    | inl past ↦ stop session_expired (ground arith)
    | inr open_still ↦ elim (Option-cases (lookup s.profile o.profiles)) [
      | inl unsupported ↦ stop unsupported_profile (ground arith)
      | inr (impl, served) ↦ elim (Result-cases (impl.parse_app_signature (consumed s) body)) [
        | inr (e, garbled) ↦ subst (Ending m id body now s) (sym (ground arith)) (rejected e)
        | inl (sig, parsed) ↦
            let same : submit_signature o formats m id body now
                ≡ complete o formats (used_up m id s) (consumed s) sig =
              ground arith in
            elim (complete_lem (used_up m id s) (consumed s) sig) [
              | inl (raw, checked, e) ↦ subst (Ending m id body now s) (sym (same ∙ e)) (
                  accepted impl sig raw open_still served parsed
                    (verify_sound (consumed s) sig raw checked))
              | inr (inl (e, h)) ↦ subst (Ending m id body now s) (sym (same ∙ h)) (rejected e)
              | inr (inr (e, h)) ↦ stop e (same ∙ h)
            ]
      ]
    ]
  ]
    where
      stop :
          (e : Error)
          → submit_signature o formats m id body now ≡ (err e, used_up m id s, [])
          → Ending m id body now s (submit_signature o formats m id body now)
      stop e h = subst (Ending m id body now s) (sym h) (stopped e)

  -- What a submission does, on every branch: for a session that is unknown, or used, it is refused
  -- and changes nothing; a session that is unused is used up, and then the submission ends in one of
  -- three ways. It is stopped with nothing else changed; the session is stored as failed with the
  -- error, which is answered; or, before its deadline, the session is stored as verified, for a
  -- signature that its profile reads from the body and the domain accepts.
  pub submit_signature-Ending :
      (m : Store) (id body : Text) (now : ℕ)
      → ((lookup id m ≡ none)
          × (submit_signature o formats m id body now ≡ (err session_not_found, m, [])))
        ⊎ ((s : Session) × (lookup id m ≡ some s)
            × (((s.used ≡ true)
                  × (submit_signature o formats m id body now ≡ (err session_used, m, [])))
                ⊎ ((s.used ≡ false)
                    × Ending m id body now s (submit_signature o formats m id body now))))
  unfolding submit_signature consume
  submit_signature-Ending m id body now = elim (Option-cases (lookup id m)) [
    | inl unknown ↦ inl (unknown, ground arith)
    | inr (s, found) ↦ elim (Bool-cases s.used) [
      | inl used ↦ inr (s, found, inl (used, ground arith))
      | inr fresh ↦ inr (s, found, inr (fresh, submit_lem m id body now s found fresh))
    ]
  ]
