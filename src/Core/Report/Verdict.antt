-- ===== src/Core/Report/Verdict.antt =====
-- report.go and explain.go together: what the verdict "valid" needs of every signer, and which of
-- two problems the verdict reports.
use qoltanba.Prelude.{
  ℕ, ◌≡◌, refl, if◌then◌else◌, ◌≢◌, ◌↔◌, Bool, true, false, none, List, [], ◌∷◌, All, arith,
}
use qoltanba.Core.Contract.{
  fail, DiagnosisStep, ReportVerdict, valid, invalid, indeterminate, Signer, VerifyOutput,
}
use qoltanba.Core.Explain.{
  severity, time_loop, signature_step, certificate_time_step, chain_complete_step,
  trust_anchor_step, chain_signatures_step, revocation_step, revocation_step_for, diagnosis_steps,
  build_diagnosis, first_step_of,
}
use qoltanba.Core.Explain.Steps.{
  IsMild, IsWithin, IsNotRevoked, time_loop-IsMild, flag_loop-warn, flag_loop-fail,
  revocation_loop-IsMild,
}
use qoltanba.Core.Report.{verdict_of_steps, verdict_from}

-- every check that bears on the verdict came out well for this signer
abbrev pub IsEstablished : Bool → Bool → ℕ → Signer → Type 0
IsEstablished check_time chain_on now x =
    IsWithin check_time now x.certificate.not_before x.certificate.not_after
    × (chain_on ≡ true → x.chain_signatures_verified ≡ true)
    × IsNotRevoked x.revocation

step_round :
    (s : DiagnosisStep) (ss : List DiagnosisStep)
    → (verdict_of_steps (s ∷ ss) ≡ valid) ↔ (IsMild s × (verdict_of_steps ss ≡ valid))
unfolding verdict_of_steps severity
step_round s ss = ground arith

verdict_of_steps-valid : (ss : List DiagnosisStep) → (verdict_of_steps ss ≡ valid) ↔ All IsMild ss
verdict_of_steps-valid [] = (λ h. tt, λ h. unfold verdict_of_steps in refl)
verdict_of_steps-valid (s ∷ ss) =
    let (to, from) = step_round s ss in
    let (to', from') = verdict_of_steps-valid ss in
    (λ h. ((to h).0, to' (to h).1), λ h. from (h.0, from' h.1))

certificate_time_step-IsMild :
    (xs : List Signer) (check : Bool) (now : ℕ)
    → IsMild (certificate_time_step xs check now)
      ↔ All (λ x. IsWithin check now x.certificate.not_before x.certificate.not_after) xs
unfolding certificate_time_step severity
certificate_time_step-IsMild [] check now = (λ h. tt, λ h. omega arith)
certificate_time_step-IsMild (x ∷ xs) check now =
    let (to, from) = time_loop-IsMild check now (x ∷ xs) _ in
    (λ h. (to h).1, λ h. from (omega arith, h))

chain_complete_step-IsMild : (xs : List Signer) → IsMild (chain_complete_step xs)
unfolding chain_complete_step severity
chain_complete_step-IsMild [] = omega arith
chain_complete_step-IsMild (x ∷ xs) = flag_loop-warn _ _ _ (x ∷ xs) _ (omega arith)

trust_anchor_step-IsMild : (xs : List Signer) → IsMild (trust_anchor_step xs)
unfolding trust_anchor_step severity
trust_anchor_step-IsMild [] = omega arith
trust_anchor_step-IsMild (x ∷ xs) = flag_loop-warn _ _ _ (x ∷ xs) _ (omega arith)

All-of_off :
    (xs : List Signer)
    → All (λ x. ◌≡◌ {A = Bool} false true → x.chain_signatures_verified ≡ true) xs
All-of_off [] = tt
All-of_off (x ∷ xs) = (λ e. absurd (ground arith), All-of_off xs)

All-const :
    (xs : List Signer)
    → All (λ x. x.chain_signatures_verified ≡ true) xs
      ↔ All (λ x. ◌≡◌ {A = Bool} true true → x.chain_signatures_verified ≡ true) xs
All-const [] = (λ h. h, λ h. h)
All-const (x ∷ xs) = (λ h. (λ e. h.0, (All-const xs).0 h.1), λ h. (h.0 refl, (All-const xs).1 h.1))

chain_signatures_step-IsMild :
    (xs : List Signer) (chain_on : Bool)
    → IsMild (chain_signatures_step xs chain_on)
      ↔ All (λ x. chain_on ≡ true → x.chain_signatures_verified ≡ true) xs
unfolding chain_signatures_step severity
chain_signatures_step-IsMild xs false = (λ h. All-of_off xs, λ h. omega arith)
chain_signatures_step-IsMild [] true = (λ h. tt, λ h. omega arith)
chain_signatures_step-IsMild (x ∷ xs) true =
    let (to, from) = flag_loop-fail (λ x. x.chain_signatures_verified) _ _ (x ∷ xs) _ in
    let (to', from') = All-const (x ∷ xs) in (λ h. to' (to h).1, λ h. from (omega arith, from' h))

revocation_step-IsMild :
    (xs : List Signer)
    → IsMild (revocation_step_for true xs) ↔ All (λ x. IsNotRevoked x.revocation) xs
unfolding revocation_step_for severity
revocation_step-IsMild [] = (λ h. tt, λ h. omega arith)
revocation_step-IsMild (x ∷ xs) =
    let (to, from) = revocation_loop-IsMild (x ∷ xs) 0 _ in
    (λ h. (to h).1, λ h. from (omega arith, h))

zip-All :
    (check_time chain_on : Bool) (now : ℕ) (xs : List Signer)
    → All (IsEstablished check_time chain_on now) xs ↔ (
        All (λ x. IsWithin check_time now x.certificate.not_before x.certificate.not_after) xs
        × All (λ x. chain_on ≡ true → x.chain_signatures_verified ≡ true) xs
        × All (λ x. IsNotRevoked x.revocation) xs)
zip-All b c now [] = (λ h. (tt, tt, tt), λ h. tt)
zip-All b c now (x ∷ xs) =
    let (to, from) = zip-All b c now xs in
    (
      λ h. ((h.0.0, (to h.1).0), (h.0.1, (to h.1).1), (h.0.2, (to h.1).2)),
      λ h. ((h.0.0, h.1.0, h.2.0), from (h.0.1, h.1.1, h.2.1)),
    )

signature_step-IsMild : (out : VerifyOutput) → out.valid ≡ true → IsMild (signature_step out)
unfolding signature_step severity
signature_step-IsMild out v = rw v (omega arith)

diagnosis_steps-valid :
    (out : VerifyOutput) (check_time chain_on : Bool) (now : ℕ)
    → out.valid ≡ true
    → (verdict_of_steps (diagnosis_steps out check_time chain_on now) ≡ valid)
      ↔ All (IsEstablished check_time chain_on now) out.signers
unfolding diagnosis_steps revocation_step
diagnosis_steps-valid out b c now v =
    let xs = out.signers in
    let (to, from) = verdict_of_steps-valid (diagnosis_steps out b c now) in
    let (zip_to, zip_from) = zip-All b c now xs in
    let (time_to, time_from) = certificate_time_step-IsMild xs b now in
    let (sig_to, sig_from) = chain_signatures_step-IsMild xs c in
    let (rev_to, rev_from) = revocation_step-IsMild xs in
    (
      λ h.
          zip_from
            (time_to (to h).1.0, sig_to (to h).1.1.1.1.0, rev_to (rw v at (to h).1.1.1.1.1.0)),
      λ h. from (
        signature_step-IsMild out v,
        (
          time_from (zip_to h).0,
          (
            chain_complete_step-IsMild xs,
            (
              trust_anchor_step-IsMild xs,
              (sig_from (zip_to h).1, (rw v (rev_from (zip_to h).2), tt)),
            ),
          ),
        ),
      ),
    )

verdict_split :
    (b : Bool) (w : ReportVerdict)
    → ((if b then w else invalid) ≡ valid) ↔ ((b ≡ true) × (w ≡ valid))
verdict_split b w = ground arith

-- The verdict is "valid" exactly when the signature verified and, for every signer, the validity
-- window is known (and holds the instant, if the time is checked), the chain signatures verified
-- (if chain verification is on), and the revocation status was established as not revoked.
pub verdict_from-valid_iff :
    (out : VerifyOutput) (check_time chain_on : Bool) (now : ℕ)
    → (verdict_from out (build_diagnosis out check_time chain_on now) ≡ valid)
      ↔ ((out.valid ≡ true) × All (IsEstablished check_time chain_on now) out.signers)
unfolding verdict_from build_diagnosis
verdict_from-valid_iff out b c now =
    let (to, from) = verdict_split out.valid (verdict_of_steps (diagnosis_steps out b c now)) in
    (
      λ h. ((to h).0, (diagnosis_steps-valid out b c now (to h).0).0 (to h).1),
      λ h. from (h.0, (diagnosis_steps-valid out b c now h.0).1 h.1),
    )

-- For a container with one signer that verified, whose certificate shows no validity window and
-- whose chain signatures failed while chain verification was on, the verdict is "indeterminate"
-- although the diagnosis holds a failed step.
pub verdict_from-hides_failure :
    (out : VerifyOutput) (check_time : Bool) (now : ℕ) (x : Signer)
    → out.valid ≡ true
    → out.signers ≡ x ∷ []
    → x.certificate.not_before ≡ none
    → x.chain_signatures_verified ≡ false
    → (verdict_from out (build_diagnosis out check_time true now) ≡ indeterminate)
      × (first_step_of (build_diagnosis out check_time true now).steps fail ≢ none)
unfolding verdict_from build_diagnosis diagnosis_steps verdict_of_steps first_step_of time_loop
    certificate_time_step chain_signatures_step
verdict_from-hides_failure out b now x v e nb cs = ground arith
