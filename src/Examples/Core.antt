-- ===== src/Examples/Core.antt =====
-- The verdicts of internal/core at one signed container: a signer inside the validity window, with
-- a status that is clear, and variants of it.
use qoltanba.Prelude.{
  ℕ, ◌≡◌, refl, ◌↔◌, true, false, Option, none, some, [], ◌∷◌, All, codes, is_empty, ok, arith, inr,
}
use qoltanba.Core.Contract.{
  SignatureFormat, ValidationMethod, Subject, Certificate, RevocationStatus, Signer, valid,
  VerifyOutput, ValidateOutput,
}
use qoltanba.Core.Explain.{build_diagnosis}
use qoltanba.Core.Report.{verdict_from}
use qoltanba.Core.Report.Verdict.{IsEstablished, verdict_from-valid_iff}
use qoltanba.Core.Historical.{
  VerifyAtInput, VerifyAtOutput, Verify, Validate, assess_signer_at, verify_at,
}
use qoltanba.Core.Historical.Verdicts.{
  IsInWindow, HasPassingStatus, assess_signer_at-sure_iff, verify_at-sure_iff,
}

abbrev alice : Subject
alice = record {
  common_name = codes "ALICE";
  last_name = codes "A";
  given_name = codes "B";
  email = [];
  organization = [];
  iin = codes "900101300123";
  bin = [];
  gender = codes "FEMALE";
}

abbrev pub certificate : Option ℕ → Option ℕ → Certificate
certificate nb na = record {
  subject = alice;
  issuer = alice;
  serial_number = codes "01";
  not_before = nb;
  not_after = na;
  signature_algorithm_oid = [];
  key_algorithm = [];
  owner_type = [];
  roles = [];
  pem = codes "PEM";
}

abbrev revoked_at_90 : RevocationStatus
revoked_at_90 = record {
  revoked = true;
  determinate = true;
  method = ValidationMethod.ocsp;
  revocation_time = some 90;
  reason = codes "keyCompromise";
  checked_at = none;
  this_update = none;
  next_update = none;
  produced_at = none;
  lib_error = none;
}

abbrev pub clear : RevocationStatus
clear = record revoked_at_90 { revoked = false; revocation_time = none; reason = [] }

abbrev pub signer : Signer
signer = record {
  certificate = certificate (some 10) (some 100);
  chain = [];
  valid = true;
  signing_time = some 40;
  signature_algorithm = [];
  timestamp_gen_time = none;
  chain_complete = true;
  trust_anchor_found = true;
  chain_signatures_verified = true;
  cades_level = [];
  claims = none;
  revocation = some clear;
}

abbrev signed : Signer → VerifyOutput
signed x = record {
  valid = true;
  format = SignatureFormat.cms;
  detached = false;
  signers = x ∷ [];
  warnings = [];
  lib_error = none;
  explanation = none;
  report = none;
}

verdict_from-valid_iff_example :
    (verdict_from (signed signer) (build_diagnosis (signed signer) true true 50) ≡ valid)
    ↔ ((true ≡ true) × All (IsEstablished true true 50) (signer ∷ []))
verdict_from-valid_iff_example = verdict_from-valid_iff (signed signer) true true 50

abbrev unanchored : Signer
unanchored = record signer {
  certificate = certificate none none;
  chain_signatures_verified = false;
}

abbrev pub request : VerifyAtInput
request = record {
  verify_input = record {
    format = SignatureFormat.cms;
    signature = codes "S";
    content = codes "D";
    detached = true;
    input_pem = false;
    check_cert_time = true;
    extract_claims = false;
    report = false;
    revocation_check = none;
    revocation_method = ValidationMethod.unset;
    responder_url = [];
    trusted_certs = [];
  };
  at = some 60;
  method = ValidationMethod.ocsp;
  crl_bytes = [];
  responder_url = [];
}

-- a responder that knows the certificate as revoked at 90
abbrev responder : Validate
responder query = ok (record { status = revoked_at_90; ocsp_response = [] })

abbrev verifier : Verify
verifier input = ok (signed signer)

sure_at_60 :
    ((assess_signer_at responder signer 60 request).valid_at ≡ true)
    × ((assess_signer_at responder signer 60 request).determinate ≡ true)
sure_at_60 = (assess_signer_at-sure_iff responder signer 60 request).1 (
  refl,
  (10, 100, refl, refl, omega arith, omega arith),
  (
    refl,
    (
      record { status = revoked_at_90; ocsp_response = [] },
      refl,
      inr (refl, (90, refl, omega arith)),
    ),
  ),
)

verify_at-sure_iff_example :
    (out : VerifyAtOutput) × (verify_at responder verifier 70 request ≡ ok out)
    × (((out.valid_at ≡ true) × (out.determinate ≡ true)) ↔ (
        (is_empty (signer ∷ []) ≡ false)
        × All
            (λ x.
              (x.valid ≡ true)
              × IsInWindow x.certificate 60
              × HasPassingStatus responder request x.certificate 60)
            (signer ∷ [])))
verify_at-sure_iff_example =
    verify_at-sure_iff responder verifier 70 60 request (signed signer) refl (omega arith) refl

-- a responder that knows nothing of the certificate
abbrev unknown_status : ValidateOutput
unknown_status = record { status = record clear { determinate = false }; ocsp_response = [] }

abbrev silent : Validate
silent query = ok unknown_status
