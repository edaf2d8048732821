-- ===== src/Core/Validate.antt =====
-- internal/core/service.go, Validate. The clock is read for the check and by the cache, twice. A
-- method that is neither `ocsp` nor `crl` is left out.
use qoltanba.Prelude.{
  ℕ, if◌then◌else◌, Bool, true, false, not, ◌&&◌, ◌||◌, Option, none, some, List, [], ◌∷◌, ◌++◌,
  Text, is_empty, Result, ok, err,
}
use qoltanba.Core.Contract.{
  ValidationMethod, TrustedCert, RevocationStatus, ValidateInput, ValidateOutput,
}
use qoltanba.Core.Provider.{CertStatus, ValidateRequest, ValidateResult, is_soft_verify_failure}
use qoltanba.Core.Validation.{
  Error, crl_undetermined, failed, Validator, enrich_from_ocsp, enrich_from_crl, crl_reason,
}
use qoltanba.OcspCache.Cache as OcspCache
use qoltanba.OcspCache.Cache.{Cache, Entry}

-- `effMethod`, `wantOCSP`, `crlBytes` and `deltaBytes`
pub record Plan : Type 0 where
  pub method : ValidationMethod
  pub want_ocsp : Bool
  pub base : Text
  pub delta : Text

abbrev pub is_ocsp : ValidationMethod → Bool
is_ocsp ValidationMethod.ocsp = true
is_ocsp ValidationMethod.crl = false
is_ocsp ValidationMethod.unset = false

abbrev pub is_crl : ValidationMethod → Bool
is_crl ValidationMethod.crl = true
is_crl ValidationMethod.ocsp = false
is_crl ValidationMethod.unset = false

abbrev pub method_or_ocsp : ValidationMethod → ValidationMethod
method_or_ocsp ValidationMethod.unset = ValidationMethod.ocsp
method_or_ocsp m = m

abbrev pub is_unknown : CertStatus → Bool
is_unknown CertStatus.unknown = true
is_unknown CertStatus.good = false
is_unknown CertStatus.revoked = false

abbrev pub is_revoked : CertStatus → Bool
is_revoked CertStatus.revoked = true
is_revoked CertStatus.good = false
is_revoked CertStatus.unknown = false

-- the check time that is asked for, or now
abbrev pub check_time_of : ValidateInput → ℕ → ℕ
check_time_of i now = elim i.check_time [ none ↦ now | some t ↦ t ]

-- the output of a certificate that names no responder
abbrev pub undetermined : ValidationMethod → ℕ → ValidateOutput
undetermined m at = record {
  status = record {
    revoked = false;
    determinate = false;
    method = m;
    revocation_time = none;
    reason = [];
    checked_at = some at;
    this_update = none;
    next_update = none;
    produced_at = none;
    lib_error = none;
  };
  ocsp_response = [];
}

-- `cachedValidateOutput`
unfoldable pub cached_validate_output :
    ValidateInput → ValidationMethod → ℕ → Entry → ValidateOutput
cached_validate_output i m at a = record {
  status = record {
    revoked = a.revoked;
    determinate = true;
    method = m;
    revocation_time = a.revocation_time;
    reason = a.reason;
    checked_at = some at;
    this_update = a.this_update;
    next_update = a.next_update;
    produced_at = a.produced_at;
    lib_error = none;
  };
  ocsp_response = if i.want_ocsp then a.response else [];
}

module _ (v : Validator) where
  -- the effective method and the CRL material, under the fail policy
  unfoldable pub plan_of : ValidateInput → Text → Result Error Plan
  unfolding crl_reason
  plan_of i cert_der =
      let method = method_or_ocsp i.method in
      let as_asked : Plan = record {
        method = method;
        want_ocsp = i.want_ocsp || is_ocsp method;
        base = [];
        delta = [];
      } in
      let managed : Result Error Plan = elim v.crl_source [
        | none ↦ ok as_asked
        | some source ↦
            let found = source cert_der in
            let unusable : Result Error Plan =
              if v.crl_fail_hard
              then err (crl_undetermined (crl_reason v found))
              else ok (record as_asked { method = ValidationMethod.ocsp; want_ocsp = true }) in
            elim found [
              | none ↦ unusable
              | some r ↦
                  if r.reliable
                  then ok (record as_asked { base = r.base; delta = r.delta })
                  else unusable
            ]
      ] in
      if not (is_crl method)
      then ok as_asked
      else if not (is_empty i.crl_bytes)
      then ok (record as_asked { base = i.crl_bytes })
      else managed

  -- the trusted set, with the issuers that are discovered
  unfoldable pub trusted_for : ValidateInput → Text → List TrustedCert
  trusted_for i cert_der =
      let all = v.anchors ++ i.trusted_certs in
      elim v.discover [ none ↦ all | some discover ↦ all ++ discover (cert_der ∷ []) all ]

  -- the status that the library gave
  abbrev pub library_status : Plan → ValidateResult → ℕ → RevocationStatus
  library_status p r at = record {
    revoked = is_revoked r.status;
    determinate = not (is_unknown r.status);
    method = p.method;
    revocation_time = none;
    reason = [];
    checked_at = some at;
    this_update = none;
    next_update = none;
    produced_at = none;
    lib_error = none;
  }

  -- that status, with what its evidence adds
  unfoldable pub status_of : Plan → ValidateResult → Text → ℕ → RevocationStatus
  unfolding enrich_from_ocsp enrich_from_crl
  status_of p r cert_der at =
      let st = library_status p r at in
      let st' = enrich_from_crl v st p.base cert_der in
      if is_ocsp p.method
      then enrich_from_ocsp v st r.ocsp_response r.info
      else if is_empty p.base
      then st
      else if not st'.revoked && not (is_empty p.delta)
      then enrich_from_crl v st' p.delta cert_der
      else st'

  -- what goes to the library
  abbrev pub library_request : ValidateInput → Plan → Text → Text → ℕ → ValidateRequest
  library_request i p cert_der path at = record {
    cert = i.cert;
    encoding = i.encoding;
    method = p.method;
    path = path;
    check_time = at;
    want_ocsp = p.want_ocsp;
    trusted_certs = trusted_for i cert_der;
  }

  -- the answer that is kept
  abbrev pub answer_of : RevocationStatus → ValidateResult → Entry
  answer_of st r = record {
    revoked = st.revoked;
    reason = st.reason;
    revocation_time = st.revocation_time;
    this_update = st.this_update;
    next_update = st.next_update;
    produced_at = st.produced_at;
    response = r.ocsp_response;
  }

  -- the cache after a clean answer
  unfoldable pub remember :
      Option Cache → Plan → Text → Text → RevocationStatus → ValidateResult → ℕ → Option Cache
  remember none p cert_der path st r stored = none
  remember (some c) p cert_der path st r stored =
      if is_ocsp p.method
      then some (OcspCache.store v.digest c cert_der path (answer_of st r) stored)
      else some c

  -- `Validate` from the call of the library on
  unfoldable pub ask :
      Option Cache
      → ValidateInput
      → Plan
      → Text
      → Text
      → ℕ
      → ℕ
      → Result Error ValidateOutput × Option Cache
  unfolding status_of is_soft_verify_failure remember trusted_for
  ask c i p cert_der path at stored =
      let (r, e) = v.validate_cert (library_request i p cert_der path at) in
      let st = status_of p r cert_der at in
      let out : ValidateOutput = record {
        status = st;
        ocsp_response = if i.want_ocsp then r.ocsp_response else [];
      } in
      elim e [
        | none ↦ (ok out, remember c p cert_der path st r stored)
        | some failure ↦
            if is_soft_verify_failure failure
            then (
              ok (record out {
                status = record st {
                  determinate = false;
                  lib_error = some (v.lib_error_from failure);
                };
              }),
              c,
            )
            else (err (failed failure.text), c)
      ]

  -- `Validate` once the responder is known: the cache, the file for a CRL, the library
  unfoldable pub look_up_or_ask :
      Option Cache
      → ValidateInput
      → Plan
      → Text
      → Text
      → ℕ
      → ℕ
      → ℕ
      → Result Error ValidateOutput × Option Cache
  unfolding cached_validate_output ask
  look_up_or_ask c i p cert_der path at looked stored =
      let from_file : Result Error ValidateOutput × Option Cache = elim (v.write_temp p.base) [
        | err e ↦ (err (failed e), c)
        | ok file ↦ ask c i p cert_der file at stored
      ] in
      let asked =
        if is_crl p.method && not (is_empty p.base)
        then from_file
        else ask c i p cert_der path at stored in
      let from_cache : Result Error ValidateOutput × Option Cache = elim c [
        | none ↦ asked
        | some cache ↦
            let (hit, cache') = OcspCache.fetch v.digest cache cert_der path looked in
            elim hit [
              | some a ↦ (ok (cached_validate_output i p.method at a), some cache')
              | none ↦ ask (some cache') i p cert_der path at stored
            ]
      ] in
      if is_ocsp p.method then from_cache else asked

  -- `Service.Validate`
  unfoldable pub validate :
      Option Cache → ValidateInput → ℕ → ℕ → ℕ → Result Error ValidateOutput × Option Cache
  unfolding plan_of look_up_or_ask
  validate c i now looked stored =
      let cert_der = v.to_der i.cert i.encoding in
      let at = check_time_of i now in
      elim (plan_of i cert_der) [
        | err e ↦ (err e, c)
        | ok p ↦
            let path =
              if is_ocsp p.method && is_empty i.responder_url
              then v.ocsp_url cert_der
              else i.responder_url in
            if is_ocsp p.method && is_empty path
            then (ok (undetermined p.method at), c)
            else look_up_or_ask c i p cert_der path at looked stored
      ]
