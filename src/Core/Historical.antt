-- ===== src/Core/Historical.antt =====
-- internal/core/historical.go: was a signature valid at a past instant. `Service.Verify` and
-- `Service.Validate` are arguments; the verdict that Go fills through a pointer is passed along.
pub mod Verdicts
use Prim.Native.String.{String, ◌++◌ as str_append}
use qoltanba.Prelude.{
  ℕ, Bool, true, false, not, ◌&&◌, Option, none, some, List, [], ◌∷◌, ◌++◌, map, Text, codes,
  text_eq, is_empty, ltb, if◌then◌else◌, all, Result, ok, err, ◌>>=◌,
}
use qoltanba.Core.Contract.{
  SignatureFormat, ValidationMethod, CertEncoding, Certificate, Signer, Warning, LibError,
  RevocationStatus, VerifyInput, VerifyOutput, ValidateInput, ValidateOutput,
}

pub record VerifyAtInput : Type 0 where
  pub verify_input : VerifyInput
  pub at : Option ℕ  -- `none` is the zero time
  pub method : ValidationMethod
  pub crl_bytes : Text
  pub responder_url : Text

pub record PointInTimeVerdict : Type 0 where
  pub at : ℕ
  pub valid_at : Bool
  pub determinate : Bool
  pub signature_valid : Bool
  pub within_validity : Bool
  pub not_before : Option ℕ
  pub not_after : Option ℕ
  pub not_revoked_at : Bool
  pub revoked_as_of_at : Bool
  pub revocation_time : Option ℕ
  pub revocation_reason : Text
  pub method : ValidationMethod
  pub reasons : List String

pub record SignerAt : Type 0 where
  pub signer : Signer
  pub verdict : PointInTimeVerdict

pub record VerifyAtOutput : Type 0 where
  pub at : ℕ
  pub valid_at : Bool
  pub determinate : Bool
  pub format : SignatureFormat
  pub detached : Bool
  pub signers : List SignerAt
  pub warnings : List Warning
  pub lib_error : Option LibError

pub data VerifyAtError : Type 0 where
  at_required at_in_future : VerifyAtError
  verify_failed : String → VerifyAtError

-- the services that the routine calls
abbrev pub Verify : Type 0
Verify = VerifyInput → Result String VerifyOutput

abbrev pub Validate : Type 0
Validate = ValidateInput → Result String ValidateOutput

-- `v.Reasons = append(v.Reasons, r)`
unfoldable pub because : String → PointInTimeVerdict → PointInTimeVerdict
because r v = record v { reasons = v.reasons ++ r ∷ [] }

-- `withinValidityAt`: whether the window holds the instant, and whether the window is known
unfoldable pub within_validity_at : Certificate → ℕ → Bool × Bool
within_validity_at c at = elim c.not_before [
  | none ↦ (false, false)
  | some nb ↦ elim c.not_after [
    | none ↦ (false, false)
    | some na ↦ (not (ltb at nb) && not (ltb na at), true)
  ]
]

-- what a revocation check answers: the verdict, "not revoked", "determinate"
abbrev pub RevocationAnswer : Type 0
RevocationAnswer = PointInTimeVerdict × Bool × Bool

-- the end of `revocationAt`: the certificate is revoked, since the time `rt`
unfoldable pub place_revocation : RevocationStatus → ℕ → ℕ → PointInTimeVerdict → RevocationAnswer
unfolding because
place_revocation st rt at v =
    let v1 = record v { revocation_time = some rt } in
    let v2 =
      if text_eq st.reason (codes "certificateHold")
      then because
          "revocation reason is certificateHold, which is reversible; a hold may have been lifted later — an archived CRL at the instant is authoritative"
          v1
      else v1 in
    let v3 = record v2 { revoked_as_of_at = not (ltb at rt) } in
    if not (ltb at rt)
    then (because "certificate was already revoked at the requested instant" v3, false, true)
    else (
      because "certificate was revoked after the requested instant, so it was still valid then" v3,
      true,
      true,
    )

-- `revocationAt` from the status on
unfoldable pub revocation_from : RevocationStatus → ℕ → PointInTimeVerdict → RevocationAnswer
unfolding because place_revocation
revocation_from st at v =
    let v1 = record v { method = st.method } in
    if not st.revoked
    then elim st.lib_error [
      | some le ↦ (
        because
            (str_append "revocation check inconclusive ("
              (str_append le.code "); an archived CRL at the instant would be authoritative"))
            v1,
        true,
        false,
      )
      | none ↦ (v1, true, true)
    ]
    else let v2 = if is_empty st.reason then v1 else record v1 { revocation_reason = st.reason } in
      elim st.revocation_time [
        | none ↦ (
          because
              "certificate is revoked but the revocation time is unknown; it cannot be placed relative to the requested instant"
              v2,
          false,
          false,
        )
        | some rt ↦ place_revocation st rt at v2
      ]

abbrev pub status_query : VerifyAtInput → Certificate → ℕ → ValidateInput
status_query i cert at = record {
  cert = cert.pem;
  method = i.method;
  check_time = some at;
  encoding = CertEncoding.pem;
  want_ocsp = false;
  responder_url = i.responder_url;
  crl_bytes = i.crl_bytes;
  trusted_certs = [];
}

-- `assessSignerAt` up to the revocation check: the signature and the validity window
unfoldable pub assess_prepare : Signer → ℕ → PointInTimeVerdict
unfolding because within_validity_at
assess_prepare signer at =
    let v0 : PointInTimeVerdict = record {
      at = at;
      valid_at = false;
      determinate = false;
      signature_valid = signer.valid;
      within_validity = false;
      not_before = signer.certificate.not_before;
      not_after = signer.certificate.not_after;
      not_revoked_at = false;
      revoked_as_of_at = false;
      revocation_time = none;
      revocation_reason = [];
      method = ValidationMethod.unset;
      reasons = [];
    } in
    let v1 = if signer.valid then v0 else because "signature did not verify" v0 in
    let (within, time_determinate) = within_validity_at signer.certificate at in
    let v2 = record v1 { within_validity = within } in
    if not time_determinate
    then because "certificate validity window unknown (notBefore/notAfter absent)" v2
    else if not within
    then because "certificate was outside its validity window at the requested instant" v2
    else v2

-- the answer of `VerifyAt`: with no signer it is determinate and not valid, else a conjunction
unfoldable pub instant_output : VerifyOutput → List SignerAt → ℕ → VerifyAtOutput
instant_output vout signers at = record {
  at = at;
  valid_at = not (is_empty signers) && all (λ s. s.verdict.valid_at) signers;
  determinate = all (λ s. s.verdict.determinate) signers;
  format = vout.format;
  detached = vout.detached;
  signers = signers;
  warnings = vout.warnings;
  lib_error = vout.lib_error;
}

module _ (validate : Validate) where
  -- `revocationAt`
  unfoldable pub revocation_at :
      Certificate → ℕ → VerifyAtInput → PointInTimeVerdict → RevocationAnswer
  unfolding because revocation_from
  revocation_at cert at i v =
      if is_empty cert.pem
      then (because "revocation status not checked (signer certificate unavailable)" v, true, false)
      else elim (validate (status_query i cert at)) [
        | err e ↦
            (because (str_append "revocation status could not be determined: " e) v, true, false)
        | ok res ↦ revocation_from res.status at v
      ]

  -- `assessSignerAt`
  unfoldable pub assess_signer_at : Signer → ℕ → VerifyAtInput → PointInTimeVerdict
  unfolding within_validity_at
  assess_signer_at signer at i =
      let (within, time_determinate) = within_validity_at signer.certificate at in
      let (v, not_revoked, rev_determinate) =
        revocation_at signer.certificate at i (assess_prepare signer at) in
      record v {
        not_revoked_at = not_revoked;
        determinate = time_determinate && rev_determinate;
        valid_at = signer.valid && within && not_revoked;
      }

  abbrev pub assess_all : List Signer → ℕ → VerifyAtInput → List SignerAt
  assess_all [] at i = []
  assess_all (s ∷ ss) at i =
      record { signer = s; verdict = assess_signer_at s at i } ∷ assess_all ss at i

  module _ (verify : Verify) (now : ℕ) where
    -- the body of `VerifyAt` behind its guards
    unfoldable pub verify_at_instant : VerifyAtInput → ℕ → Result VerifyAtError VerifyAtOutput
    unfolding instant_output
    verify_at_instant i at =
        let vin = record i.verify_input {
          check_cert_time = false;
          revocation_check = some false;
        } in
        elim (verify vin) [
          | err e ↦ err (verify_failed e)
          | ok vout ↦ ok (instant_output vout (assess_all vout.signers at i) at)
        ]

    -- `Service.VerifyAt`
    unfoldable pub verify_at : VerifyAtInput → Result VerifyAtError VerifyAtOutput
    unfolding verify_at_instant
    verify_at i = elim i.at [
      | none ↦ err at_required
      | some at ↦ if ltb now at then err at_in_future else verify_at_instant i at
    ]
