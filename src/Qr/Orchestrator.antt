-- ===== src/Qr/Orchestrator.antt =====
-- orchestrator.go: the life of a session. The domain, the token issuer, the profiles and
-- encoding/json are arguments, as are the clock and the random values. An operation returns its
-- answer, the store that it leaves, and the views that it hands to the webhook.
use qoltanba.Prelude.{
  second, ℤ, pos, seconds, after, ℕ, ◌*◌, ◌==◌, ltb, if◌then◌else◌, Bool, true, false, not, ◌&&◌,
  Option, none, some, List, [], ◌∷◌, Text, codes, is_empty, Map, lookup, Result, ok, err,
}
use qoltanba.Core.Contract.{
  SignatureFormat, Claims, VerifyInput, VerifyOutput, ValidateInput, ValidateOutput,
}
use qoltanba.Qr.Session.{
  Mode, mode_valid, Status, Document, Session, Error, unsupported_profile, unsupported_mode,
  auth_unavailable, no_data, Profiler,
}

-- a duration that is not positive is 0
pub record Config : Type 0 where
  pub default_profile : Text
  pub default_mode : Mode
  pub ttl : ℕ
  pub reap_interval : ℕ
  pub require_ocsp : Bool

abbrev mode_or : Mode → Mode → Mode
mode_or Mode.unset d = d
mode_or m d = m

abbrev format_or_cms : SignatureFormat → SignatureFormat
format_or_cms SignatureFormat.unset = SignatureFormat.cms
format_or_cms f = f

abbrev text_or : Text → Text → Text
text_or s d = if is_empty s then d else s

-- `Config.withDefaults`
unfoldable pub with_defaults : Config → Config
with_defaults c =
    let ttl = if ltb 0 c.ttl then c.ttl else 300 * second in
    record {
      default_profile = text_or c.default_profile (codes "agnostic");
      default_mode = mode_or c.default_mode Mode.sign;
      ttl = ttl;
      reap_interval =
          if ltb 0 c.reap_interval
          then c.reap_interval
          else if ltb (60 * second) ttl
          then 60 * second
          else ttl;
      require_ocsp = c.require_ocsp;
    }

pub record CreateRequest : Type 0 where
  pub mode : Mode
  pub profile : Text
  pub sign_method : Text
  pub format : SignatureFormat
  pub detached : Bool
  pub content : Text  -- `Data`
  pub documents : List Document
  pub description : Text
  pub client_id : Text
  pub state : Text
  pub nonce : Text
  pub callback_url : Text
  pub ttl_seconds : ℕ  -- a number that is not positive is 0

pub record CreateResponse : Type 0 where
  pub session_id : Text
  pub status : Status
  pub qr : Text
  pub payload : Text
  pub egov_mobile_link : Text
  pub egov_business_link : Text
  pub data_url : Text
  pub sign_url : Text
  pub expires_in : ℤ
  pub state : Text

-- `Orchestrator`, with `D` for what the app is served and `T` for the tokens
pub record Orchestrator (D T : Type 0) : Type 0 where
  pub verifier : VerifyInput → Result Error VerifyOutput
  pub validator : ValidateInput → Result Error ValidateOutput
  pub issuer : Option (Claims → Text → Text → Result Error T)
  pub profiles : Map (Profiler D)
  pub cfg : Config
  pub has_webhook : Bool

-- the mode and the profile of a new session
unfoldable pub choose :
    {D T : Type 0} → Orchestrator D T → CreateRequest → Result Error (Mode × Profiler D)
unfolding mode_valid lookup
choose {D = D} o req =
    let mode = mode_or req.mode o.cfg.default_mode in
    let profile : Result Error (Mode × Profiler D) =
      elim (lookup (text_or req.profile o.cfg.default_profile) o.profiles) [
        | none ↦ err unsupported_profile
        | some impl ↦ ok (mode, impl)
      ] in
    if not (mode_valid mode) then err unsupported_mode else elim mode [
      | Mode.auth ↦ elim o.issuer [ none ↦ err auth_unavailable | some _ ↦ profile ]
      | Mode.sign ↦ profile
      | Mode.unset ↦ profile
      | Mode.other _ ↦ profile
    ]

-- `ttl`: the seconds that are asked for, as a Duration that wraps around, or the configured time
abbrev pub lifetime : Config → CreateRequest → ℤ
lifetime cfg req = if ltb 0 req.ttl_seconds then seconds req.ttl_seconds else pos cfg.ttl

-- the session that `Create` starts, before it has data
abbrev pub new_session : Config → CreateRequest → Mode → Text → ℕ → Session
new_session cfg req mode id now = record {
  id = id;
  mode = mode;
  profile = text_or req.profile cfg.default_profile;
  sign_method = text_or req.sign_method (codes "CMS_SIGN_ONLY");
  format = format_or_cms req.format;
  detached = req.detached;
  content = [];
  documents = req.documents;
  description = req.description;
  client_id = req.client_id;
  client_nonce = req.nonce;
  state = req.state;
  callback_url = req.callback_url;
  relay_id = [];
  relay_sign_url = [];
  status = Status.pending;
  result = [];
  error = none;
  created_at = now;
  expires_at = after now (lifetime cfg req);
  used = false;
}

-- what is to be signed: a server nonce for a login, the caller's data otherwise
unfoldable pub give_data : CreateRequest → Session → Result Error Text → Result Error Session
give_data req s nonce =
    let own : Result Error Session =
      if is_empty req.content && is_empty s.documents
      then err no_data
      else ok (record s { content = req.content }) in
    elim s.mode [
      | Mode.auth ↦ elim nonce [
        | err e ↦ err e
        | ok n ↦ ok (record s { content = n; detached = true; format = SignatureFormat.cms })
      ]
      | Mode.sign ↦ own
      | Mode.unset ↦ own
      | Mode.other _ ↦ own
    ]

-- `trimSlash`: the trailing slashes go
unfoldable pub trim_slash : Text → Text
trim_slash [] = []
trim_slash (c ∷ s) = let t = trim_slash s in if is_empty t && c == 47 then [] else c ∷ t
