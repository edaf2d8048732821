-- ===== src/Core/Verified.antt =====
-- internal/core/service.go, Verify: what a verdict of valid rests on.
use qoltanba.Prelude.{
  ℕ, suc, ◌≡◌, refl, sym, ◌∙◌, ap, subst, ◌⊎◌, inl, inr, if◌then◌else◌, Bool, true, false, not,
  none, some, List, [], ◌∷◌, All, Text, is_empty, Result, ok, err, ok-injective, arith,
  Result-cases, Option-cases, Bool-cases,
}
use qoltanba.Core.Contract.{
  format_valid, TrustedCert, RevocationStatus, Signer, VerifyInput, revocation_requested,
  VerifyOutput,
}
use qoltanba.Core.Provider.{is_soft_verify_failure, is_anchor_failure}
use qoltanba.Core.Verification.{
  Verifier, Error, unknown_format, Outcome, container, composite_confirms, judge, check_signer,
  check_revocation, revoke, status_query, no_status, ocsp_unless, require_signer, conclude,
  output_of, verify,
}

-- a status was found, and it is undetermined or not revoked; or there is no certificate to ask about
abbrev pub IsUnrevoked : Signer → Type 0
IsUnrevoked x =
    (is_empty x.certificate.pem ≡ true)
    ⊎ ((st : RevocationStatus) × (x.revocation ≡ some st)
        × ((st.determinate ≡ false) ⊎ (st.revoked ≡ false)))

module _ {S : Type 0} (v : Verifier S) where
  check_signer-IsUnrevoked :
      (i : VerifyInput) (trusted : List TrustedCert) (field : Text) (s : S) (x : Signer)
      → (check_signer v i trusted field s x).1 ≡ false
      → IsUnrevoked (check_signer v i trusted field s x).0
  unfolding check_signer
  check_signer-IsUnrevoked i trusted field s x h = elim (Bool-cases (is_empty x.certificate.pem)) [
    | inl unnamed ↦ inl (ground arith)
    | inr named ↦ elim (Result-cases (v.validate s (status_query v i trusted x)).0) [
      | inr (e, failure) ↦ inr (no_status (ocsp_unless i.revocation_method), ground arith, inl refl)
      | inl (res, answered) ↦ elim (Bool-cases res.status.determinate) [
        | inr unsure ↦ inr (res.status, ground arith, inl unsure)
        | inl sure ↦ elim (Bool-cases res.status.revoked) [
          | inl revoked ↦ absurd (ground arith)
          | inr good ↦ inr (res.status, ground arith, inr good)
        ]
      ]
    ]
  ]

  check_revocation-IsUnrevoked :
      (i : VerifyInput) (trusted : List TrustedCert) (n : ℕ) (s : S) (xs : List Signer)
      → (check_revocation v i trusted n s xs).1 ≡ false
      → All IsUnrevoked (check_revocation v i trusted n s xs).0
  unfolding check_revocation
  check_revocation-IsUnrevoked i trusted n s [] h = tt
  check_revocation-IsUnrevoked i trusted n s (x ∷ xs) h =
      let one = check_signer v i trusted (v.revocation_field n) s x in
      (
        check_signer-IsUnrevoked i trusted (v.revocation_field n) s x (ground arith),
        check_revocation-IsUnrevoked i trusted (suc n) one.3 xs (ground arith),
      )

  -- the library holds the container valid, or it rejected it for its anchor only, and the signature
  -- and every signer's chain and window are confirmed apart
  abbrev pub IsConfirmed : VerifyInput → ℕ → Type 0
  IsConfirmed i now =
      ((container v i).1.valid ≡ true)
      ⊎ ((is_anchor_failure (container v i).2 ≡ true)
          × (composite_confirms v (container v i).0 i.format
                (v.build_signers (container v i).1 i.format i.signature
                  (container v i).0.trusted_certs).0
                now
              ≡ true))

  judge-IsConfirmed : (i : VerifyInput) (now : ℕ) → (judge v i now).valid ≡ true → IsConfirmed i now
  unfolding judge
  judge-IsConfirmed i now h = elim (Bool-cases (container v i).1.valid) [
    | inl valid ↦ inl valid
    | inr rejected ↦ elim (Bool-cases (is_anchor_failure (container v i).2)) [
      | inr other ↦ absurd (ground arith)
      | inl anchor ↦
          elim (Bool-cases (
            composite_confirms v (container v i).0 i.format
              (v.build_signers (container v i).1 i.format i.signature
                (container v i).0.trusted_certs).0
              now)) [
                | inr unconfirmed ↦ absurd (ground arith)
                | inl confirmed ↦ inr (anchor, confirmed)
              ]
    ]
  ]

  require_signer_valid :
      (o : Outcome)
      → (require_signer v o).valid ≡ true
      → (o.valid ≡ true) × (is_empty o.signers ≡ false) × ((require_signer v o).signers ≡ o.signers)
  unfolding require_signer
  require_signer_valid o h = elim (Bool-cases (is_empty o.signers)) [
    | inl nobody ↦ elim (Bool-cases o.valid) [
      | inl held ↦ absurd (ground arith)
      | inr refused ↦ absurd (ground arith)
    ]
    | inr somebody ↦ (ground arith, somebody, ground arith)
  ]

  revoke_valid :
      (i : VerifyInput) (trusted : List TrustedCert) (s : S) (o : Outcome)
      → (revoke v i trusted s o).0.valid ≡ true
      → (o.valid ≡ true)
        × ((revocation_requested i ≡ false) ⊎ All IsUnrevoked (revoke v i trusted s o).0.signers)
  unfolding revoke
  revoke_valid i trusted s o h = elim (Bool-cases o.valid) [
    | inr refused ↦ absurd (ground arith)
    | inl held ↦ elim (Bool-cases (revocation_requested i)) [
      | inr declined ↦ (held, inl declined)
      | inl asked ↦ (
        held,
        inr (
            subst (All IsUnrevoked) (ground arith)
              (check_revocation-IsUnrevoked i trusted 0 s o.signers (ground arith))),
      )
    ]
  ]

  conclude_valid :
      (i : VerifyInput) (o : Outcome) (out : VerifyOutput)
      → conclude v i o ≡ ok out
      → (out.valid ≡ o.valid) × (out.signers ≡ o.signers)
  unfolding conclude
  conclude_valid i o out h = elim (Option-cases o.failure) [
    | inl clean ↦
        let e = ok-injective {E = Error} (output_of v i o none) out (ground arith) in
        (ap (λ r. r.valid) (sym e), ap (λ r. r.signers) (sym e))
    | inr (failure, found) ↦ elim (Bool-cases (is_soft_verify_failure failure)) [
      | inr hard ↦ absurd (ground arith)
      | inl soft ↦
          let e =
            ok-injective {E = Error} (output_of v i o (some (v.lib_error_from failure))) out
              (ground arith) in
          (ap (λ r. r.valid) (sym e), ap (λ r. r.signers) (sym e))
    ]
  ]

  -- Whenever `Verify` returns an output that is valid, at least one signer is named, revocation was
  -- declined or every signer's status was found and is not a determined revocation (a signer that
  -- carries no certificate is let through), and the library held the container valid, or it
  -- rejected it for its anchor only while the signature without the time check, the chain of every
  -- signer and its window hold.
  pub verify_valid :
      (s : S) (i : VerifyInput) (now : ℕ) (out : VerifyOutput)
      → (verify v s i now).0 ≡ ok out
      → out.valid ≡ true
      → (is_empty out.signers ≡ false)
        × ((revocation_requested i ≡ false) ⊎ All IsUnrevoked out.signers)
        × IsConfirmed i now
  unfolding verify
  verify_valid s i now out h held =
      let o = (revoke v i (container v i).0.trusted_certs s (judge v i now)).0 in
      let concluded =
        of_known (format_valid i.format) (conclude v i (require_signer v o))
          (revoke v i (container v i).0.trusted_certs s (judge v i now)).1 h in
      let from_outcome = conclude_valid i (require_signer v o) out concluded in
      let (unrevoked, named, kept) = require_signer_valid o (sym from_outcome.0 ∙ held) in
      let (judged, checked) =
        revoke_valid i (container v i).0.trusted_certs s (judge v i now) unrevoked in
      let same = from_outcome.1 ∙ kept in
      (
        ap is_empty same ∙ named,
        subst (λ xs. (revocation_requested i ≡ false) ⊎ All IsUnrevoked xs) (sym same) checked,
        judge-IsConfirmed i now judged,
      )
    where
      of_known :
          (known : Bool) (answer : Result Error VerifyOutput) (s' : S)
          → (if◌then◌else◌ {A = Result Error VerifyOutput × S}
              (not known)
              (err unknown_format, s)
              (answer, s')).0
            ≡ ok out
          → answer ≡ ok out
      of_known true answer s' e = e
      of_known false answer s' e = absurd (ground arith)
