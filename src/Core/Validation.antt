-- ===== src/Core/Validation.antt =====
-- internal/core/service.go, Validate, and revocation.go: the revocation check of one certificate.
-- The library, the parsers of certificates, OCSP responses and CRLs, the fetcher of issuers, the
-- source of CRLs and the file system are arguments (a discovery that panics is in Core.Discovery);
-- the cache is state. Warnings and `Info`, which no modelled code reads, are left out.
use Prim.Native.String.{String}
use qoltanba.Prelude.{
  ℕ, ◌==◌, if◌then◌else◌, Bool, true, false, Option, none, some, List, [], ◌∷◌, Text, codes,
  is_empty, Result,
}
use qoltanba.Core.Contract.{CertEncoding, TrustedCert, LibError, RevocationStatus}
use qoltanba.Core.Provider.{ProviderError, ValidateRequest, ValidateResult}

-- `CRLResult`
pub record CrlResult : Type 0 where
  pub base : Text
  pub delta : Text
  pub reliable : Bool
  pub reason : Text

-- an OCSP response that x/crypto/ocsp can parse
pub record OcspParsed : Type 0 where
  pub this_update : ℕ
  pub next_update : Option ℕ
  pub produced_at : Option ℕ
  pub revoked : Bool
  pub revoked_at : Option ℕ
  pub reason_code : ℕ

pub record CrlEntry : Type 0 where
  pub serial_number : Option ℕ
  pub revocation_time : ℕ
  pub reason_code : ℕ

-- a CRL that crypto/x509 can parse
pub record CrlParsed : Type 0 where
  pub this_update : Option ℕ
  pub next_update : Option ℕ
  pub entries : List CrlEntry

-- the errors of `Validate`: the hard fail policy, and a failure of the library or of a file
pub data Error : Type 0 where
  crl_undetermined : Text → Error
  failed : String → Error

-- the parts of `Service` that `Validate` reads, with the functions that it calls; `crl_source` and
-- `discover` are `none` where the service has no such port
pub record Validator : Type 0 where
  pub to_der : Text → CertEncoding → Text
  pub ocsp_url : Text → Text
  pub anchors : List TrustedCert
  pub discover : Option (List Text → List TrustedCert → List TrustedCert)
  pub crl_source : Option (Text → Option CrlResult)
  pub crl_fail_hard : Bool
  pub write_temp : Text → Result String Text
  pub validate_cert : ValidateRequest → ValidateResult × Option ProviderError
  pub parse_ocsp : Text → Option OcspParsed
  pub reason_in : Text → Option Text  -- the match of `ocspReasonRe`
  pub parse_crl : Text → Option CrlParsed
  pub parse_serial : Text → Option (Option ℕ)
  pub lib_error_from : ProviderError → LibError
  pub digest : Text → Text

-- `reasonName`
unfoldable pub reason_name : ℕ → Text
reason_name code =
    if code == 0
    then codes "unspecified"
    else if code == 1
    then codes "keyCompromise"
    else if code == 2
    then codes "cACompromise"
    else if code == 3
    then codes "affiliationChanged"
    else if code == 4
    then codes "superseded"
    else if code == 5
    then codes "cessationOfOperation"
    else if code == 6
    then codes "certificateHold"
    else if code == 8
    then codes "removeFromCRL"
    else if code == 9
    then codes "privilegeWithdrawn"
    else if code == 10
    then codes "aACompromise"
    else []

abbrev or_else : {A : Type 0} → Option A → Option A → Option A
or_else none b = b
or_else (some a) b = some a

abbrev name_or : ℕ → Text → Text
name_or code reason = if is_empty (reason_name code) then reason else reason_name code

module _ (v : Validator) where
  -- the fallback of `enrichFromOCSP`: the reason in the library's text
  abbrev pub reason_from_info : RevocationStatus → Text → RevocationStatus
  reason_from_info st info =
      if is_empty st.reason
      then elim (v.reason_in info) [ none ↦ st | some r ↦ record st { reason = r } ]
      else st

  -- `enrichFromOCSP` on a response that is parsed
  unfoldable pub enrich_parsed : RevocationStatus → OcspParsed → RevocationStatus
  unfolding reason_name
  enrich_parsed st r =
      let st' = record st {
        this_update = some r.this_update;
        next_update = or_else r.next_update st.next_update;
        produced_at = or_else r.produced_at st.produced_at;
      } in
      if r.revoked
      then record st' {
        revoked = true;
        revocation_time = or_else r.revoked_at st.revocation_time;
        reason = name_or r.reason_code st.reason;
      }
      else st'

  -- `enrichFromOCSP`
  unfoldable pub enrich_from_ocsp : RevocationStatus → Text → Text → RevocationStatus
  unfolding enrich_parsed
  enrich_from_ocsp st raw info =
      if is_empty raw
      then reason_from_info st info
      else elim (v.parse_ocsp raw) [ none ↦ reason_from_info st info | some r ↦ enrich_parsed st r ]

  abbrev pub is_serial : Option ℕ → Option ℕ → Bool
  is_serial none s = false
  is_serial (some n) none = false
  is_serial (some n) (some k) = n == k

  -- the loop of `enrichFromCRL` over the revoked certificates
  unfoldable pub enrich_entry : RevocationStatus → Option ℕ → List CrlEntry → RevocationStatus
  unfolding reason_name
  enrich_entry st serial [] = st
  enrich_entry st serial (e ∷ es) =
      let rest = enrich_entry st serial es in
      if is_serial e.serial_number serial
      then record st {
        revoked = true;
        revocation_time = some e.revocation_time;
        reason = name_or e.reason_code st.reason;
      }
      else rest

  abbrev pub with_window : RevocationStatus → CrlParsed → RevocationStatus
  with_window st rl = record st {
    this_update = or_else rl.this_update st.this_update;
    next_update = or_else rl.next_update st.next_update;
  }

  -- `enrichFromCRL`
  unfoldable pub enrich_from_crl : RevocationStatus → Text → Text → RevocationStatus
  unfolding enrich_entry
  enrich_from_crl st crl cert_der = elim (v.parse_crl (v.to_der crl CertEncoding.pem)) [
    | none ↦ st
    | some rl ↦
        let st' = with_window st rl in
        elim (v.parse_serial cert_der) [
          | none ↦ st'
          | some serial ↦ enrich_entry st' serial rl.entries
        ]
  ]

  -- `crlReason`
  unfoldable pub crl_reason : Option CrlResult → Text
  crl_reason none = codes "unavailable"
  crl_reason (some r) = if is_empty r.reason then codes "unreliable" else r.reason
