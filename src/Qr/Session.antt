-- ===== src/Qr/Session.antt =====
-- contract.go, errors.go and profile.go: sessions, their view, and what a profile does.
use Prim.Native.String.{String}
use qoltanba.Prelude.{ℕ, if◌then◌else◌, Bool, true, false, Option, List, Text, codes, Result}
use qoltanba.Core.Contract.{SignatureFormat, Signer, Claims}
use qoltanba.Jobs.Job.{ItemError}

-- `ModeSign`, `ModeAuth`, the empty string and any other string
pub data Mode : Type 0 where
  sign auth unset : Mode
  other : Text → Mode

-- `Mode.valid`
unfoldable pub mode_valid : Mode → Bool
mode_valid sign = true
mode_valid auth = true
mode_valid unset = false
mode_valid (other _) = false

pub data Status : Type 0 where
  pending verified failed expired : Status

-- `Status.Terminal`
unfoldable pub terminal : Status → Bool
terminal pending = false
terminal verified = true
terminal failed = true
terminal expired = true

pub record Document : Type 0 where
  pub name_ru : Text
  pub name_kz : Text
  pub name_en : Text
  pub bytes : Text  -- `Data`
  pub mime : Text

pub record Session : Type 0 where
  pub id : Text
  pub mode : Mode
  pub profile : Text
  pub sign_method : Text
  pub format : SignatureFormat
  pub detached : Bool
  pub content : Text  -- `Data`
  pub documents : List Document
  pub description : Text
  pub client_id : Text
  pub client_nonce : Text
  pub state : Text
  pub callback_url : Text
  pub relay_id : Text
  pub relay_sign_url : Text
  pub status : Status
  pub result : Text  -- nil is the empty text
  pub error : Option ItemError
  pub created_at : ℕ
  pub expires_at : ℕ
  pub used : Bool

pub record View : Type 0 where
  pub id : Text
  pub mode : Mode
  pub profile : Text
  pub status : Status
  pub expires_at : ℕ
  pub result : Text
  pub error : Option ItemError

-- `Session.view`
unfoldable pub view : Session → View
view s = record {
  id = s.id;
  mode = s.mode;
  profile = s.profile;
  status = s.status;
  expires_at = s.expires_at;
  result = s.result;
  error = s.error;
}

pub record SignResult : Type 0 where
  pub signature : Text
  pub valid : Bool
  pub signers : List Signer
  pub claims : Option Claims

-- the errors of errors.go, any other error with its message, and the panic of a call through a nil
-- issuer
pub data Error : Type 0 where
  session_not_found session_used session_expired signature_rejected cert_revoked : Error
  unsupported_profile unsupported_mode auth_unavailable no_data app_only : Error
  other_error : String → Error
  panicked : Error

abbrev pub is_panic : Error → Bool
is_panic panicked = true
is_panic _ = false

-- `errors.Is(err, ErrSignatureRejected)`
abbrev pub is_rejection : Error → Bool
is_rejection signature_rejected = true
is_rejection _ = false

-- `err.Error()`
unfoldable pub message : Error → String
message session_not_found = "qr: session not found"
message session_used = "qr: session signature already submitted"
message session_expired = "qr: session expired"
message signature_rejected = "qr: signature invalid or no signer"
message cert_revoked = "qr: signer certificate revoked"
message unsupported_profile = "qr: unsupported profile"
message unsupported_mode = "qr: unsupported mode"
message auth_unavailable = "qr: auth mode requires the OIDC token issuer"
message no_data = "qr: no data to sign"
message app_only = "qr: endpoint not served for this profile"
message (other_error s) = s
message panicked = ""

-- the switch of `explainError`
unfoldable pub is_soft : Error → Bool
is_soft signature_rejected = true
is_soft cert_revoked = true
is_soft session_expired = true
is_soft session_used = true
is_soft no_data = true
is_soft session_not_found = false
is_soft unsupported_profile = false
is_soft unsupported_mode = false
is_soft auth_unavailable = false
is_soft app_only = false
is_soft (other_error _) = false
is_soft panicked = false

-- `explainError`
unfoldable pub explain_error : Error → ItemError
unfolding is_soft message
explain_error e = record {
  kind = if is_soft e then codes "invalid" else codes "internal";
  code = "";
  message = message e;
  action = "";
}

pub record PublicUrls : Type 0 where
  pub data_url : Text
  pub sign_url : Text

pub record Artifacts : Type 0 where
  pub payload : Text
  pub egov_mobile_link : Text
  pub egov_business_link : Text
  pub data_url : Text
  pub sign_url : Text

-- what `Prepare` gives, with the fields that it stamps on the session
pub record Prepared : Type 0 where
  pub artifacts : Artifacts
  pub relay_id : Text
  pub relay_sign_url : Text

-- `Profiler`; a poll gives a signature, or `none` while there is none yet
pub record Profiler (D : Type 0) : Type 0 where
  pub self_hosted : Bool
  pub prepare : Session → PublicUrls → Result Error Prepared
  pub app_data : Session → Result Error D
  pub parse_app_signature : Session → Text → Result Error Text
  pub poll : Session → Result Error (Option Text)
