-- ===== src/Core/Explain.antt =====
-- internal/core/explain.go: the ordered diagnosis of a verification. A loop over the signers is a
-- recursion that merges each signer's outcome into the step.
pub mod Steps
use Prim.Native.String.{String, ◌++◌ as str_append}
use qoltanba.Prelude.{
  ℕ, suc, ltb, ◌==◌, if◌then◌else◌, is_empty, Bool, true, false, not, ◌&&◌, ◌||◌, Option, none,
  some, List, [], ◌∷◌, Text, codes,
}
use qoltanba.Core.Contract.{
  DiagnosisStatus, pass, fail, warn, skipped, unknown, DiagnosisStep, Diagnosis, LibError,
  Certificate, RevocationStatus, Signer, VerifyOutput,
}

-- `DiagnosisStatus.severity`
unfoldable pub severity : DiagnosisStatus → ℕ
severity fail = 4
severity unknown = 3
severity warn = 2
severity pass = 1
severity skipped = 0

abbrev pub step_signature : Text
step_signature = codes "signature"

abbrev pub step_certificate_time : Text
step_certificate_time = codes "certificateTime"

abbrev pub step_chain_complete : Text
step_chain_complete = codes "chainComplete"

abbrev pub step_trust_anchor : Text
step_trust_anchor = codes "trustAnchor"

abbrev pub step_chain_signatures : Text
step_chain_signatures = codes "chainSignatures"

abbrev pub step_revocation : Text
step_revocation = codes "revocation"

-- a step with no action
step_of : Text → DiagnosisStatus → String → DiagnosisStep
step_of k s t = record { step = k; status = s; summary = t; action = "" }

-- `DiagnosisStep.merge`
unfoldable pub merge : DiagnosisStatus → String → String → DiagnosisStep → DiagnosisStep
unfolding severity
merge status summary action s =
    if ltb (severity s.status) (severity status)
    then record s { status = status; summary = summary; action = action }
    else s

is_blank : String → Bool
is_blank String.[] = true
is_blank (String.◌∷◌ _ _) = false

or_default : String → String → String
unfolding is_blank
or_default s d = if is_blank s then d else s

failed_signature : Option LibError → DiagnosisStep
unfolding or_default
failed_signature none = record {
  step = step_signature;
  status = fail;
  summary = "The signature did not verify cryptographically.";
  action = "The content may have been altered, or the wrong original data / format was supplied.";
}
failed_signature (some le) = record {
  step = step_signature;
  status = fail;
  summary = or_default le.message "The signature did not verify cryptographically.";
  action =
      or_default le.action
        "The content may have been altered, or the wrong original data / format was supplied.";
}

no_signature : DiagnosisStep
no_signature = record {
  step = step_signature;
  status = fail;
  summary = "No signature was found in the input.";
  action = "Check that the payload is a signed container in the declared format (cms/xml/wsse).";
}

is_none {ℓ} : {A : Type ℓ} → Option A → Bool
is_none none = true
is_none (some _) = false

unfoldable pub signature_step : VerifyOutput → DiagnosisStep
unfolding step_of failed_signature no_signature is_none
signature_step out =
    if out.valid
    then step_of step_signature pass "The signature is cryptographically valid."
    else if is_empty out.signers && is_none out.lib_error
    then no_signature
    else failed_signature out.lib_error

-- one round of the loop of `certificateTimeStep`
unfoldable pub time_merge :
    DiagnosisStatus → ℕ → Option ℕ → Option ℕ → DiagnosisStep → DiagnosisStep
unfolding merge
time_merge fail_status now (some nb) (some na) s =
    if ltb now nb
    then merge fail_status "A signer certificate was not yet valid at verification time."
        "Verify against the signing time, or confirm the certificate's notBefore." s
    else if ltb na now
    then merge fail_status "A signer certificate had expired at verification time."
        "Use point-in-time verification (/verify/at) to check validity as of the signing time." s
    else s
time_merge fail_status now _ _ s =
    merge unknown "A signer certificate's validity window is unavailable."
      "Parse the certificate (cert/info) to inspect notBefore/notAfter." s

unfoldable pub time_loop : DiagnosisStatus → ℕ → List Signer → DiagnosisStep → DiagnosisStep
time_loop fail_status now [] s = s
time_loop fail_status now (x ∷ xs) s =
    time_loop fail_status now xs
      (time_merge fail_status now x.certificate.not_before x.certificate.not_after s)

unfoldable pub certificate_time_step : List Signer → Bool → ℕ → DiagnosisStep
unfolding step_of time_loop time_merge
certificate_time_step signers check_cert_time now =
    if is_empty signers
    then step_of step_certificate_time skipped "No signer certificate to check."
    else time_loop (if check_cert_time then fail else warn) now signers (
        step_of step_certificate_time pass
          "Every signer certificate was within its validity period.")

-- the loop of `chainCompleteStep`, `trustAnchorStep` and `chainSignaturesStep`: a signer without
-- the flag is merged with the status
unfoldable pub flag_loop :
    (Signer → Bool)
    → DiagnosisStatus
    → String
    → String
    → List Signer
    → DiagnosisStep
    → DiagnosisStep
unfolding merge
flag_loop flag status summary action [] s = s
flag_loop flag status summary action (x ∷ xs) s =
    flag_loop flag status summary action xs (if flag x then s else merge status summary action s)

unfoldable pub chain_complete_step : List Signer → DiagnosisStep
unfolding step_of flag_loop
chain_complete_step signers =
    if is_empty signers
    then step_of step_chain_complete skipped "No signer to build a chain for."
    else flag_loop (λ x. x.chain_complete) warn
        "The certificate chain is incomplete (no self-signed root reached)."
        "Supply the issuing CA(s) via trustedCerts, or enable AIA fetch / the RK CA registry."
        signers
        (step_of step_chain_complete pass "The certificate chain was built to a self-signed root.")

unfoldable pub trust_anchor_step : List Signer → DiagnosisStep
unfolding step_of flag_loop
trust_anchor_step signers =
    if is_empty signers
    then step_of step_trust_anchor skipped "No signer to anchor."
    else flag_loop (λ x. x.trust_anchor_found) warn
        "The chain is not anchored to any configured trust anchor."
        "Load the RK CA trust store (trust.use-rk-registry or trust.ca-dir) so the signer can be trusted."
        signers
        (step_of step_trust_anchor pass "The chain is anchored to a configured trusted root.")

unfoldable pub chain_signatures_step : List Signer → Bool → DiagnosisStep
unfolding step_of flag_loop
chain_signatures_step signers false = record {
  step = step_chain_signatures;
  status = skipped;
  summary = "Chain-signature verification was not enabled.";
  action = "Enable trust.verify-chain to cryptographically validate the chain (incl. GOST).";
}
chain_signatures_step signers true =
    if is_empty signers
    then step_of step_chain_signatures skipped "No signer chain to verify."
    else flag_loop (λ x. x.chain_signatures_verified) fail
        "A signer chain did not cryptographically validate against the anchors."
        "Confirm the correct issuing CAs and trust anchors are loaded." signers
        (step_of step_chain_signatures pass "The chain signatures were cryptographically verified.")

-- the step that one signer's revocation status leaves
unfoldable pub revocation_merge : Option RevocationStatus → DiagnosisStep → DiagnosisStep
unfolding merge
revocation_merge none s =
    merge unknown "Revocation status was not checked as part of verification."
      "Leave revocationCheck on, or check separately via /cert/validate (now) or /verify/at (as of a past instant)."
      s
revocation_merge (some r) s =
    if not r.determinate
    then merge unknown "Revocation status could not be established (the responder did not answer)."
        "Retry when the responder is reachable; do not read an unanswered check as \"not revoked\"."
        s
    else if r.revoked
    then merge fail "A signer certificate has been revoked."
        "Reject the signature: the key it was made with has been repudiated." s
    else s

-- the `default` of the switch: an answer, and not revoked
unfoldable pub is_clear : Option RevocationStatus → Bool
is_clear none = false
is_clear (some r) = r.determinate && not r.revoked

-- the loop of `revocationStep`, with its counter `checked`
unfoldable pub revocation_loop : List Signer → ℕ → DiagnosisStep → ℕ × DiagnosisStep
unfolding is_clear revocation_merge
revocation_loop [] checked s = (checked, s)
revocation_loop (x ∷ xs) checked s =
    revocation_loop xs (if is_clear x.revocation then suc checked else checked)
      (revocation_merge x.revocation s)

revocation_not_reached : DiagnosisStep
revocation_not_reached = record {
  step = step_revocation;
  status = skipped;
  summary = "Revocation was not checked: the signature did not verify.";
  action = "Fix the signature first; revocation is only meaningful for a signature that verifies.";
}

is_unknown : DiagnosisStatus → Bool
is_unknown unknown = true
is_unknown pass = false
is_unknown fail = false
is_unknown warn = false
is_unknown skipped = false

unfoldable pub revocation_step_for : Bool → List Signer → DiagnosisStep
unfolding step_of revocation_loop revocation_not_reached is_unknown
revocation_step_for valid signers =
    let (checked, s) =
      revocation_loop signers 0
        (step_of step_revocation pass "No signer certificate has been revoked.") in
    if not valid && checked == 0 && is_unknown s.status
    then revocation_not_reached
    else if is_empty signers
    then step_of step_revocation skipped "No signer to check revocation for."
    else s

unfoldable pub revocation_step : VerifyOutput → DiagnosisStep
unfolding revocation_step_for
revocation_step out = revocation_step_for out.valid out.signers

same_status : DiagnosisStatus → DiagnosisStatus → Bool
unfolding severity
same_status a b = severity a == severity b

-- `firstStepOf`
unfoldable pub first_step_of : List DiagnosisStep → DiagnosisStatus → Option DiagnosisStep
unfolding same_status
first_step_of [] status = none
first_step_of (s ∷ ss) status =
    if same_status s.status status then some s else first_step_of ss status

unfoldable pub diagnosis_summary : Bool → List DiagnosisStep → String
unfolding first_step_of
diagnosis_summary true steps = elim (first_step_of steps warn) [
  | some w ↦ str_append "Signature is valid, with a caveat: " w.summary
  | none ↦ "Signature is valid."
]
diagnosis_summary false steps = elim (first_step_of steps fail) [
  | some f ↦ f.summary
  | none ↦ "Signature is not valid."
]

unfoldable pub diagnosis_steps : VerifyOutput → Bool → Bool → ℕ → List DiagnosisStep
unfolding signature_step certificate_time_step chain_complete_step trust_anchor_step
    chain_signatures_step revocation_step
diagnosis_steps out check_cert_time chain_verify_on now =
    signature_step out
    ∷ certificate_time_step out.signers check_cert_time now
    ∷ chain_complete_step out.signers
    ∷ trust_anchor_step out.signers
    ∷ chain_signatures_step out.signers chain_verify_on
    ∷ revocation_step out
    ∷ []

-- `buildDiagnosis`
unfoldable pub build_diagnosis : VerifyOutput → Bool → Bool → ℕ → Diagnosis
build_diagnosis out check_cert_time chain_verify_on now =
    let steps = diagnosis_steps out check_cert_time chain_verify_on now in
    record { valid = out.valid; summary = diagnosis_summary out.valid steps; steps = steps }
