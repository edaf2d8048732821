-- ===== src/Core/Provider.antt =====
-- internal/provider: what the domain sees of the native library, and internal/core/errors.go, which
-- errors of it are an outcome of a check.
use Prim.Native.String.{String}
use qoltanba.Prelude.{ℕ, Bool, true, false, not, ◌&&◌, ◌||◌, Option, none, some, List, Text}
use qoltanba.Core.Contract.{ValidationMethod, CertEncoding, TrustedCert}

-- the errors of errors.go that the domain tells apart
pub data Sentinel : Type 0 where
  closed unsupported not_ready : Sentinel
  cert_expired cert_time_invalid signature_invalid no_signature chain_invalid ca_required : Sentinel
  other : Sentinel

-- an error of the library: the sentinel that it is or wraps, and whether it is a `NativeError`
pub record ProviderError : Type 0 where
  pub kind : Sentinel
  pub native : Bool
  pub text : String

-- the sentinels that `isSoftVerifyFailure` lists
abbrev is_outcome : Sentinel → Bool
is_outcome Sentinel.signature_invalid = true
is_outcome Sentinel.no_signature = true
is_outcome Sentinel.chain_invalid = true
is_outcome Sentinel.cert_expired = true
is_outcome Sentinel.cert_time_invalid = true
is_outcome _ = false

-- the sentinels that are faults of the library whatever carries them
abbrev is_fault : Sentinel → Bool
is_fault Sentinel.unsupported = true
is_fault Sentinel.not_ready = true
is_fault Sentinel.closed = true
is_fault _ = false

-- `isSoftVerifyFailure`
unfoldable pub is_soft_verify_failure : ProviderError → Bool
is_soft_verify_failure e = is_outcome e.kind || e.native && not (is_fault e.kind)

-- `isAnchorFailure`
unfoldable pub is_anchor_failure : Option ProviderError → Bool
is_anchor_failure none = false
is_anchor_failure (some e) = elim e.kind [
  | Sentinel.cert_time_invalid ↦ true
  | Sentinel.chain_invalid ↦ true
  | Sentinel.ca_required ↦ true
  | _ ↦ false
]

-- `CertStatus`
pub data CertStatus : Type 0 where
  unknown good revoked : CertStatus

pub record ValidateRequest : Type 0 where
  pub cert : Text
  pub encoding : CertEncoding
  pub method : ValidationMethod
  pub path : Text
  pub check_time : ℕ
  pub want_ocsp : Bool
  pub trusted_certs : List TrustedCert

pub record ValidateResult : Type 0 where
  pub status : CertStatus
  pub info : Text
  pub ocsp_response : Text
