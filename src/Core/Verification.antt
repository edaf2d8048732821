-- ===== src/Core/Verification.antt =====
-- internal/core/service.go, Verify, from the container to the verdict. The library, the assembly
-- of signers, the discovery of issuers and Validate, with the state `S` that it keeps, are
-- arguments; the discovery returns (where it panics is in Core.Discovery), and an error of
-- Validate is the text that `addErr` records. Data by reference, the archive, the content and the
-- claims that are added on request, and the views that attachSynthesis adds to the outcome, are
-- left out.
use Prim.Native.String.{String}
use qoltanba.Prelude.{
  ℕ, suc, ltb, if◌then◌else◌, Bool, true, false, not, ◌&&◌, ◌||◌, Option, none, some, List, [], ◌∷◌,
  ◌++◌, map, all, Text, codes, is_empty, Result, ok, err,
}
use qoltanba.Core.Contract.{
  SignatureFormat, format_valid, ValidationMethod, CertEncoding, TrustedCert, LibError, Warning,
  RevocationStatus, Certificate, Signer, VerifyInput, revocation_requested, VerifyOutput,
  ValidateInput, ValidateOutput,
}
use qoltanba.Core.Provider.{ProviderError, is_soft_verify_failure, is_anchor_failure}

-- `provider.VerifyRequest`
pub record VerifyRequest : Type 0 where
  pub signature : Text
  pub content : Text  -- `Data`
  pub detached : Bool
  pub input_pem : Bool
  pub check_cert_time : Bool
  pub trusted_certs : List TrustedCert

-- `provider.VerifyResult`
pub record VerifyResult : Type 0 where
  pub valid : Bool
  pub signers : List Text
  pub info : Text

pub data Error : Type 0 where
  unknown_format : Error
  failed : String → Error

-- the parts of `Service` that `Verify` reads, with the functions that it calls; `discover` is `none`
-- where the service has no fetcher
pub record Verifier (S : Type 0) : Type 0 where
  pub verify_cms : VerifyRequest → VerifyResult × Option ProviderError
  pub verify_xml : VerifyRequest → VerifyResult × Option ProviderError
  pub anchors : List TrustedCert
  pub discover : Option (List Text → List TrustedCert → List TrustedCert)
  pub signer_ders : List Text → List Text
  pub build_signers :
      VerifyResult → SignatureFormat → Text → List TrustedCert → List Signer × List Warning
  pub verify_chain : Bool
  pub validate : S → ValidateInput → Result String ValidateOutput × S
  pub revocation_field : ℕ → Text
  pub lib_error_from : ProviderError → LibError

-- the window of a certificate holds the instant
abbrev pub is_within : Certificate → ℕ → Bool
is_within c now = elim c.not_before [
  | none ↦ false
  | some from ↦ elim c.not_after [ none ↦ false | some to ↦ not (ltb now from) && not (ltb to now) ]
]

-- the facts that `compositeConfirms` asks of one signer
abbrev pub is_chained : ℕ → Signer → Bool
is_chained now x =
    x.chain_signatures_verified && x.trust_anchor_found && is_within x.certificate now

-- what a verification has found so far
pub record Outcome : Type 0 where
  pub valid : Bool
  pub signers : List Signer
  pub failure : Option ProviderError
  pub warnings : List Warning

abbrev pub ocsp_unless : ValidationMethod → ValidationMethod
ocsp_unless ValidationMethod.unset = ValidationMethod.ocsp
ocsp_unless m = m

abbrev warn : Text → String → Warning
warn field reason = record { field = field; reason = reason }

-- the status that stands for a check that failed
abbrev pub no_status : ValidationMethod → RevocationStatus
no_status m = record {
  revoked = false;
  determinate = false;
  method = m;
  revocation_time = none;
  reason = [];
  checked_at = none;
  this_update = none;
  next_update = none;
  produced_at = none;
  lib_error = none;
}

module _ {S : Type 0} (v : Verifier S) where
  -- `verifyContainer`
  unfoldable pub verify_container :
      SignatureFormat → VerifyRequest → VerifyResult × Option ProviderError
  verify_container SignatureFormat.cms req = v.verify_cms req
  verify_container f req = v.verify_xml req

  -- the request, its trusted set, and the answer, after the retry with discovered issuers
  unfoldable pub container : VerifyInput → VerifyRequest × VerifyResult × Option ProviderError
  unfolding verify_container is_anchor_failure
  container i =
      let req : VerifyRequest = record {
        signature = i.signature;
        content = i.content;
        detached = i.detached;
        input_pem = i.input_pem;
        check_cert_time = i.check_cert_time;
        trusted_certs = v.anchors ++ i.trusted_certs;
      } in
      let (res, e) = verify_container i.format req in
      let once : VerifyRequest × VerifyResult × Option ProviderError = (req, res, e) in
      elim v.discover [
        | none ↦ once
        | some discover ↦
            let extra = discover (v.signer_ders res.signers) req.trusted_certs in
            let req' = record req { trusted_certs = req.trusted_certs ++ extra } in
            let (res', e') = verify_container i.format req' in
            if i.check_cert_time
              && is_anchor_failure e
              && not (is_empty res.signers)
              && not (is_empty extra)
            then (req', res', e')
            else once
      ]

  -- `compositeConfirms`
  unfoldable pub composite_confirms : VerifyRequest → SignatureFormat → List Signer → ℕ → Bool
  unfolding verify_container
  composite_confirms req f xs now =
      let (res, e) = verify_container f (record req { check_cert_time = false }) in
      let sound : Bool = elim e [ none ↦ res.valid | some _ ↦ false ] in
      not (is_empty xs) && all (is_chained now) xs && sound

  abbrev pub confirmed : Signer → Signer
  confirmed x = record x { valid = true }

  -- the outcome of the container, with the cert-time-anchor override
  unfoldable pub judge : VerifyInput → ℕ → Outcome
  unfolding container composite_confirms is_anchor_failure
  judge i now =
      let (req, res, e) = container i in
      let (xs, w) = v.build_signers res i.format i.signature req.trusted_certs in
      let found : Outcome = record { valid = res.valid; signers = xs; failure = e; warnings = w } in
      if not res.valid
        && v.verify_chain
        && i.check_cert_time
        && is_anchor_failure e
        && composite_confirms req i.format xs now
      then record {
        valid = true;
        signers = map confirmed xs;
        failure = none;
        warnings =
            w
            ++ warn (codes "verify")
                "cert-time-anchor-override: library rejected the time-checked verify (GOST-2015 VerifyData quirk); signature math, cryptographic chain to a trusted anchor and validity window independently confirm the signature"
              ∷ [];
      }
      else found

  abbrev pub status_query : VerifyInput → List TrustedCert → Signer → ValidateInput
  status_query i trusted x = record {
    cert = x.certificate.pem;
    encoding = CertEncoding.pem;
    method = ocsp_unless i.revocation_method;
    check_time = none;
    want_ocsp = false;
    responder_url = i.responder_url;
    crl_bytes = [];
    trusted_certs = trusted;
  }

  -- one round of `checkRevocation`: the signer with its status, whether it is revoked, the warnings
  unfoldable pub check_signer :
      VerifyInput → List TrustedCert → Text → S → Signer → Signer × Bool × List Warning × S
  check_signer i trusted field s x =
      let (answer, s') = v.validate s (status_query i trusted x) in
      let checked : Signer × Bool × List Warning × S = elim answer [
        | err e ↦ (
          record x { revocation = some (no_status (ocsp_unless i.revocation_method)) },
          false,
          warn field e ∷ [],
          s',
        )
        | ok res ↦
            let x' = record x { revocation = some res.status } in
            if not res.status.determinate
            then (x', false, warn field "revocation status could not be established" ∷ [], s')
            else if res.status.revoked
            then (record x' { valid = false }, true, [], s')
            else (x', false, [], s')
      ] in
      if is_empty x.certificate.pem
      then (x, false, warn field "no certificate to check revocation for" ∷ [], s)
      else checked

  -- the loop of `checkRevocation`, from a signer's index on: the signers, whether one is revoked, the
  -- warnings
  unfoldable pub check_revocation :
      VerifyInput → List TrustedCert → ℕ → S → List Signer → List Signer × Bool × List Warning × S
  unfolding check_signer
  check_revocation i trusted n s [] = ([], false, [], s)
  check_revocation i trusted n s (x ∷ xs) =
      let (x', gone, w, s') = check_signer i trusted (v.revocation_field n) s x in
      let (xs', any_gone, ws, s'') = check_revocation i trusted (suc n) s' xs in
      (x' ∷ xs', gone || any_gone, w ++ ws, s'')

  -- the outcome once revocation is checked, where the signature holds and the check is not declined
  unfoldable pub revoke : VerifyInput → List TrustedCert → S → Outcome → Outcome × S
  unfolding check_revocation revocation_requested
  revoke i trusted s o =
      if o.valid && revocation_requested i
      then (let (xs, gone, w, s') = check_revocation i trusted 0 s o.signers in
          (record o { valid = not gone; signers = xs; warnings = o.warnings ++ w }, s'))
      else (o, s)

  -- a verdict that names nobody is not valid
  unfoldable pub require_signer : Outcome → Outcome
  require_signer o =
      if o.valid && is_empty o.signers
      then record o {
        valid = false;
        warnings =
            o.warnings
            ++ warn (codes "verify")
                "the signature verified but no signer could be identified; a verdict that names nobody is not a verdict"
              ∷ [];
      }
      else o

  -- the output for an outcome, before the views on request
  abbrev pub output_of : VerifyInput → Outcome → Option LibError → VerifyOutput
  output_of i o e = record {
    valid = o.valid;
    format = i.format;
    detached = i.detached;
    signers = o.signers;
    warnings = o.warnings;
    lib_error = e;
    explanation = none;
    report = none;
  }

  -- the end of `Verify`: a failure that is a verdict, and one that is an error
  unfoldable pub conclude : VerifyInput → Outcome → Result Error VerifyOutput
  unfolding is_soft_verify_failure
  conclude i o = elim o.failure [
    | none ↦ ok (output_of i o none)
    | some e ↦
        if is_soft_verify_failure e
        then ok (output_of i o (some (v.lib_error_from e)))
        else err (failed e.text)
  ]

  -- `Service.Verify`
  unfoldable pub verify : S → VerifyInput → ℕ → Result Error VerifyOutput × S
  unfolding format_valid judge revoke require_signer conclude container
  verify s i now =
      let (o, s') = revoke i (container i).0.trusted_certs s (judge i now) in
      if not (format_valid i.format)
      then (err unknown_format, s)
      else (conclude i (require_signer o), s')
