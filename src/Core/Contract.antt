-- ===== src/Core/Contract.antt =====
-- internal/core/contract.go, cert_types.go and the types of claims.go, explain.go, report.go:
-- the request and response types of the domain. Times are nanoseconds, binary data and identifiers
-- are byte lists, prose for people is a String; a pointer that may be nil is an Option. Fields that
-- no modelled operation reads (display attributes of a certificate, network locations) are left out.
use Prim.Native.String.{String}
use qoltanba.Prelude.{ℕ, Bool, true, false, Option, List, Text}

-- `FormatCMS`, `FormatXML`, `FormatWSSE`; the empty string and any other string
pub data SignatureFormat : Type 0 where
  cms xml wsse : SignatureFormat
  unset : SignatureFormat
  other : Text → SignatureFormat

-- `SignatureFormat.Valid`
unfoldable pub format_valid : SignatureFormat → Bool
format_valid cms = true
format_valid xml = true
format_valid wsse = true
format_valid unset = false
format_valid (other _) = false

pub record LibError : Type 0 where
  pub code : String
  pub text : String
  pub key : Text
  pub message : String
  pub action : String

pub record Warning : Type 0 where
  pub field : Text
  pub reason : String

pub data ValidationMethod : Type 0 where
  ocsp crl : ValidationMethod
  unset : ValidationMethod

pub record Subject : Type 0 where
  pub common_name : Text
  pub last_name : Text
  pub given_name : Text
  pub email : Text
  pub organization : Text
  pub iin : Text
  pub bin : Text
  pub gender : Text

pub record Certificate : Type 0 where
  pub subject : Subject
  pub issuer : Subject
  pub serial_number : Text
  pub not_before : Option ℕ
  pub not_after : Option ℕ
  pub signature_algorithm_oid : Text
  pub key_algorithm : Text
  pub owner_type : Text
  pub roles : List Text
  pub pem : Text

pub record Claims : Type 0 where
  pub sub : Text
  pub name : Text
  pub given_name : Text
  pub family_name : Text
  pub email : Text
  pub iin : Text
  pub bin : Text
  pub organization : Text
  pub roles : List Text
  pub owner_type : Text
  pub gender : Text

pub record RevocationStatus : Type 0 where
  pub revoked : Bool
  pub determinate : Bool
  pub method : ValidationMethod
  pub revocation_time : Option ℕ
  pub reason : Text
  pub checked_at : Option ℕ
  pub this_update : Option ℕ
  pub next_update : Option ℕ
  pub produced_at : Option ℕ
  pub lib_error : Option LibError

pub record Signer : Type 0 where
  pub certificate : Certificate
  pub chain : List Certificate
  pub valid : Bool
  pub signing_time : Option ℕ
  pub signature_algorithm : Text
  -- `Timestamp.GenTime`, where a time-stamp token is attached and carries it
  pub timestamp_gen_time : Option ℕ
  pub chain_complete : Bool
  pub trust_anchor_found : Bool
  pub chain_signatures_verified : Bool
  pub cades_level : Text
  pub claims : Option Claims
  pub revocation : Option RevocationStatus

pub data DiagnosisStatus : Type 0 where
  pass fail warn skipped unknown : DiagnosisStatus

pub record DiagnosisStep : Type 0 where
  pub step : Text
  pub status : DiagnosisStatus
  pub summary : String
  pub action : String

pub record Diagnosis : Type 0 where
  pub valid : Bool
  pub summary : String
  pub steps : List DiagnosisStep

pub data ReportVerdict : Type 0 where
  valid invalid indeterminate : ReportVerdict

-- `ReportSigner`, the part that identifies a signer and says when the signature was made
pub record ReportSigner : Type 0 where
  pub name : Text
  pub iin : Text
  pub bin : Text
  pub organization : Text
  pub owner_type : Text
  pub roles : List Text
  pub valid : Bool
  pub signed_at : Option ℕ
  pub signed_at_source : Text

pub record VerificationReport : Type 0 where
  pub verdict : ReportVerdict
  pub checked_at : ℕ
  pub signers : List ReportSigner
  pub steps : List DiagnosisStep

pub record TrustedCert : Type 0 where
  pub cert : Text
  pub intermediate : Bool

pub data CertEncoding : Type 0 where
  pem der base64 : CertEncoding
  unset : CertEncoding

pub record VerifyInput : Type 0 where
  pub format : SignatureFormat
  pub signature : Text
  pub content : Text  -- `Data`
  pub detached : Bool
  pub input_pem : Bool
  pub check_cert_time : Bool
  pub extract_claims : Bool
  pub report : Bool
  pub revocation_check : Option Bool
  pub revocation_method : ValidationMethod
  pub responder_url : Text
  pub trusted_certs : List TrustedCert

-- `VerifyInput.RevocationRequested`
unfoldable pub revocation_requested : VerifyInput → Bool
revocation_requested v = elim v.revocation_check [ Option.none ↦ true | Option.some b ↦ b ]

pub record VerifyOutput : Type 0 where
  pub valid : Bool
  pub format : SignatureFormat
  pub detached : Bool
  pub signers : List Signer
  pub warnings : List Warning
  pub lib_error : Option LibError
  pub explanation : Option Diagnosis
  pub report : Option VerificationReport

pub record ValidateInput : Type 0 where
  pub cert : Text
  pub encoding : CertEncoding  -- `Format`
  pub method : ValidationMethod
  pub check_time : Option ℕ  -- `none` is the zero time, which means now
  pub want_ocsp : Bool
  pub responder_url : Text
  pub crl_bytes : Text  -- `CRL`
  pub trusted_certs : List TrustedCert

pub record ValidateOutput : Type 0 where
  pub status : RevocationStatus
  pub ocsp_response : Text
