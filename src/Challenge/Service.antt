-- ===== src/Challenge/Service.antt =====
-- challenge.go: issuing and confirming a challenge. `verify` and `validate` stand for the methods of
-- `Verifier`, `encode` for base64; the random bytes, the random id and the clock are arguments. An
-- operation returns its answer with the store that it leaves.
use Prim.Native.String.{String}
use qoltanba.Prelude.{
  ℕ, ◌+◌, ◌*◌, ◌/◌, ltb, if◌then◌else◌, Bool, true, false, not, ◌&&◌, ◌||◌, Option, none, some,
  List, [], ◌∷◌, Text, codes, Result, ok, err,
}
use qoltanba.Core.Contract.{
  SignatureFormat, ValidationMethod, CertEncoding, Certificate, Claims, Signer, VerifyInput,
  VerifyOutput, ValidateInput, ValidateOutput,
}
use qoltanba.Challenge.Store.{
  Challenge, Error, expired, no_randomness, verify_failed, check_failed, check_inconclusive, Store,
  create, consume,
}

-- `Config`; a lifetime that is not positive is 0
pub record Config : Type 0 where
  pub ttl : ℕ
  pub require_ocsp : Bool

pub record IssueRequest : Type 0 where
  pub purpose : Text
  pub meta : List (Text × Text)

pub record IssueResponse : Type 0 where
  pub challenge_id : Text
  pub data_encoded : Text
  pub alg : Text
  pub expires_in : ℕ
  pub purpose : Text

pub record ConfirmRequest : Type 0 where
  pub challenge_id : Text
  pub signature : Text
  pub check_revocation : Bool

pub record ConfirmResponse : Type 0 where
  pub confirmed : Bool
  pub purpose : Text
  pub meta : List (Text × Text)
  pub confirmed_at : ℕ
  pub signer : Option Claims
  pub certificate : Option Certificate
  pub revoked : Option Bool

abbrev pub second : ℕ
second = 1000000000

-- the lifetime that `New` settles on
unfoldable pub lifetime : Config → ℕ
lifetime cfg = if ltb 0 cfg.ttl then cfg.ttl else 300 * second

abbrev pub new_challenge : Config → IssueRequest → Text → Text → ℕ → Challenge
new_challenge cfg req nonce id now = record {
  id = id;
  nonce = nonce;
  purpose = req.purpose;
  meta = req.meta;
  created_at = now;
  expires_at = now + lifetime cfg;
  used = false;
}

module _ (encode : Text → Text) where
  -- `Service.Issue`
  unfoldable pub issue :
      Config
      → Store
      → IssueRequest
      → Option Text
      → Option Text
      → ℕ
      → Result Error IssueResponse × Store
  unfolding create
  issue cfg m req none fresh now = (err no_randomness, m)
  issue cfg m req (some nonce) none now = (err no_randomness, m)
  issue cfg m req (some nonce) (some id) now =
      let answer : IssueResponse = record {
        challenge_id = id;
        data_encoded = encode nonce;
        alg = codes "CMS-detached";
        expires_in = lifetime cfg / second;
        purpose = req.purpose;
      } in
      (ok answer, create m (new_challenge cfg req nonce id now))

-- what `Confirm` asks the verifier about a challenge
abbrev pub nonce_query : Challenge → Text → VerifyInput
nonce_query c signature = record {
  format = SignatureFormat.cms;
  signature = signature;
  content = c.nonce;
  detached = true;
  input_pem = false;
  check_cert_time = true;
  extract_claims = true;
  report = false;
  revocation_check = none;
  revocation_method = ValidationMethod.unset;
  responder_url = [];
  trusted_certs = [];
}

abbrev pub ocsp_query : Text → ValidateInput
ocsp_query pem = record {
  cert = pem;
  method = ValidationMethod.ocsp;
  check_time = none;
  encoding = CertEncoding.pem;
  want_ocsp = false;
  responder_url = [];
  crl_bytes = [];
  trusted_certs = [];
}

abbrev is_set {ℓ} : {A : Type ℓ} → Option A → Bool
is_set none = false
is_set (some _) = true

-- the answer to a signature that did not verify
abbrev pub unconfirmed : Challenge → ℕ → ConfirmResponse
unconfirmed c now = record {
  confirmed = false;
  purpose = c.purpose;
  meta = c.meta;
  confirmed_at = now;
  signer = none;
  certificate = none;
  revoked = none;
}

-- the answer to a signature that verified, before a revocation check
abbrev pub confirmed_by : Challenge → ℕ → Signer → ConfirmResponse
confirmed_by c now x = record {
  confirmed = true;
  purpose = c.purpose;
  meta = c.meta;
  confirmed_at = now;
  signer = x.claims;
  certificate = some x.certificate;
  revoked = none;
}

module _ (validate : ValidateInput → Result String ValidateOutput) where
  -- `checkRevocation`
  unfoldable pub check_revocation : Text → Result Error Bool
  check_revocation pem = elim (validate (ocsp_query pem)) [
    | err e ↦ err check_failed
    | ok out ↦
        if is_set out.status.lib_error && not out.status.revoked
        then err check_inconclusive
        else ok out.status.revoked
  ]

  -- `Confirm` once the signature has verified
  unfoldable pub confirm_signer :
      Config → ConfirmRequest → Challenge → ℕ → Signer → Result Error ConfirmResponse
  unfolding check_revocation
  confirm_signer cfg req c now x =
      let resp = confirmed_by c now x in
      if cfg.require_ocsp || req.check_revocation
      then elim (check_revocation x.certificate.pem) [
        | err e ↦ err e
        | ok revoked ↦
            ok (record resp { revoked = some revoked; confirmed = if revoked then false else true })
      ]
      else ok resp

  module _ (verify : VerifyInput → Result String VerifyOutput) where
    -- `Confirm` once the challenge is consumed
    unfoldable pub confirm_challenge :
        Config → ConfirmRequest → Challenge → ℕ → Result Error ConfirmResponse
    unfolding confirm_signer
    confirm_challenge cfg req c now =
        if not (ltb now c.expires_at)
        then err expired
        else elim (verify (nonce_query c req.signature)) [
          | err e ↦ err verify_failed
          | ok out ↦ if not out.valid then ok (unconfirmed c now) else elim out.signers [
            | [] ↦ ok (unconfirmed c now)
            | x ∷ _ ↦ confirm_signer cfg req c now x
          ]
        ]

    -- `Service.Confirm`
    unfoldable pub confirm :
        Config → Store → ConfirmRequest → ℕ → Result Error ConfirmResponse × Store
    unfolding consume confirm_challenge
    confirm cfg m req now =
        let (got, m') = consume m req.challenge_id in
        elim got [ err e ↦ (err e, m') | ok c ↦ (confirm_challenge cfg req c now, m') ]
