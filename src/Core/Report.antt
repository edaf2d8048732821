-- ===== src/Core/Report.antt =====
-- internal/core/report.go and claims.go: the three-valued verdict of a verification, and the
-- names and times of its signers.
pub mod Verdict
use qoltanba.Prelude.{
  ℕ, Bool, true, false, if◌then◌else◌, ◌&&◌, Option, none, some, List, [], ◌∷◌, ◌++◌, Text, codes,
  is_empty, not, text_eq,
}
use qoltanba.Core.Contract.{
  DiagnosisStatus, pass, fail, warn, skipped, unknown, DiagnosisStep, ReportVerdict, valid, invalid,
  indeterminate, VerifyOutput, Diagnosis, Subject, Certificate, Signer, ReportSigner, Claims,
}

-- the loop of `verdictFrom`: the first failed or undeterminable step decides
unfoldable pub verdict_of_steps : List DiagnosisStep → ReportVerdict
verdict_of_steps [] = valid
verdict_of_steps (s ∷ ss) = elim s.status [
  | fail ↦ invalid
  | unknown ↦ indeterminate
  | _ ↦ verdict_of_steps ss
]

-- `verdictFrom`
unfoldable pub verdict_from : VerifyOutput → Diagnosis → ReportVerdict
unfolding verdict_of_steps
verdict_from out diag = if out.valid then verdict_of_steps diag.steps else invalid

-- `subjectID`
unfoldable pub subject_id : Subject → Text
subject_id s = if is_empty s.iin then s.bin else s.iin

-- `displayName`
unfoldable pub display_name : Subject → Text
display_name s =
    if not (is_empty s.common_name)
    then s.common_name
    else if not (is_empty s.last_name) && not (is_empty s.given_name)
    then s.last_name ++ codes " " ++ s.given_name
    else if not (is_empty s.last_name)
    then s.last_name
    else s.given_name

-- `oidcGender`
unfoldable pub oidc_gender : Text → Text
oidc_gender g =
    if text_eq g (codes "MALE")
    then codes "male"
    else if text_eq g (codes "FEMALE")
    then codes "female"
    else []

-- `ClaimsFromCertificate`
unfoldable pub claims_from_certificate : Certificate → Claims
unfolding subject_id display_name oidc_gender
claims_from_certificate cert = record {
  sub = subject_id cert.subject;
  name = display_name cert.subject;
  given_name = cert.subject.given_name;
  family_name = cert.subject.last_name;
  email = cert.subject.email;
  iin = cert.subject.iin;
  bin = cert.subject.bin;
  organization = cert.subject.organization;
  roles = cert.roles;
  owner_type = cert.owner_type;
  gender = oidc_gender cert.subject.gender;
}

-- `signerName`
unfoldable pub signer_name : Subject → Text
unfolding display_name
signer_name s = let name = display_name s in if is_empty name then s.organization else name

-- the switch at the end of `reportSigner`: when the signature was made, and who says so
unfoldable pub signed_at_of : Option ℕ → Option ℕ → Option ℕ × Text
signed_at_of (some t) _ = (some t, codes "timestamp")
signed_at_of none (some t) = (some t, codes "signingTime")
signed_at_of none none = (none, [])

-- `reportSigner`, the fields that `ReportSigner` keeps in the model
unfoldable pub report_signer : Signer → ReportSigner
unfolding signer_name signed_at_of
report_signer s =
    let (at, source) = signed_at_of s.timestamp_gen_time s.signing_time in
    record {
      name = signer_name s.certificate.subject;
      iin = s.certificate.subject.iin;
      bin = s.certificate.subject.bin;
      organization = s.certificate.subject.organization;
      owner_type = s.certificate.owner_type;
      roles = s.certificate.roles;
      valid = s.valid;
      signed_at = at;
      signed_at_source = source;
    }
