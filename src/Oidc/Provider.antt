-- ===== src/Oidc/Provider.antt =====
-- oidc.go: the challenge and verify flow, and the tokens that it gives. The domain and the functions
-- of the signer are arguments, as are the clock and the random values; `trim_space` stands for
-- bytes.TrimSpace and strings.TrimSpace, `encode` for base64. An operation returns its answer with the
-- challenges that it leaves.
use qoltanba.Prelude.{
  ℕ, ◌+◌, ◌/◌, ◌*◌, ltb, if◌then◌else◌, Bool, true, false, not, ◌||◌, none, some, [], ◌∷◌, Text,
  codes, is_empty, has_prefix, Map, lookup, insert, Result, ok, err, ◌>>=◌,
}
use qoltanba.Core.Contract.{
  SignatureFormat, ValidationMethod, CertEncoding, Claims, Signer, VerifyInput, VerifyOutput,
  ValidateInput, ValidateOutput,
}
use qoltanba.Challenge.Store.{Challenge, Store, create, consume}
use qoltanba.Challenge.Store as ChallengeStore
use qoltanba.Oidc.Contract.{
  Error, of_challenge, signature_rejected, cert_revoked, TokenResponse, Value, TokenClaims,
  claims_to_map,
}
use qoltanba.Oidc.Signer.{Crypto, second, sign, verify}

-- a duration that is not positive is 0
pub record Config : Type 0 where
  pub issuer : Text
  pub audience : Text
  pub challenge_ttl : ℕ
  pub token_ttl : ℕ
  pub require_ocsp : Bool
  pub reap_interval : ℕ

-- `Config.withDefaults`
unfoldable pub with_defaults : Config → Config
with_defaults c =
    let ttl = if ltb 0 c.challenge_ttl then c.challenge_ttl else 300 * second in
    record {
      issuer = c.issuer;
      audience = c.audience;
      challenge_ttl = ttl;
      token_ttl = if ltb 0 c.token_ttl then c.token_ttl else 3600 * second;
      require_ocsp = c.require_ocsp;
      reap_interval =
          if ltb 0 c.reap_interval
          then c.reap_interval
          else if ltb (60 * second) ttl
          then 60 * second
          else ttl;
    }

pub record ChallengeRequest : Type 0 where
  pub nonce : Text
  pub state : Text

pub record ChallengeResponse : Type 0 where
  pub challenge_id : Text
  pub data_encoded : Text
  pub alg : Text
  pub expires_in : ℕ
  pub state : Text

-- `challengeMeta`; the keys that `metaClientNonce` and `metaState` name
unfoldable pub challenge_meta : ChallengeRequest → Map Text
challenge_meta req =
    let state = if is_empty req.state then [] else (codes "state", req.state) ∷ [] in
    if is_empty req.nonce then state else (codes "clientNonce", req.nonce) ∷ state

-- `Provider.Challenge`
unfoldable pub issue_challenge :
    (Text → Text)
    → Config
    → Store
    → ChallengeRequest
    → Result Error Text
    → Result Error Text
    → ℕ
    → Result Error ChallengeResponse × Store
unfolding challenge_meta create
issue_challenge encode cfg m req (err e) fresh now = (err e, m)
issue_challenge encode cfg m req (ok nonce) (err e) now = (err e, m)
issue_challenge encode cfg m req (ok nonce) (ok id) now =
    let c : Challenge = record {
      id = id;
      nonce = nonce;
      purpose = codes "oidc.login";
      meta = challenge_meta req;
      created_at = now;
      expires_at = now + cfg.challenge_ttl;
      used = false;
    } in
    let answer : ChallengeResponse = record {
      challenge_id = id;
      data_encoded = encode nonce;
      alg = codes "CMS-detached";
      expires_in = cfg.challenge_ttl / second;
      state = req.state;
    } in
    (ok answer, create m c)

-- `looksPEM`
unfoldable pub looks_pem : (Text → Text) → Text → Bool
unfolding has_prefix
looks_pem trim_space signature = has_prefix (trim_space signature) (codes "-----BEGIN")

-- what the flow asks the domain about a signature over a nonce
abbrev pub nonce_query : Bool → Text → Text → VerifyInput
nonce_query pem nonce signature = record {
  format = SignatureFormat.cms;
  signature = signature;
  content = nonce;
  detached = true;
  input_pem = pem;
  check_cert_time = true;
  extract_claims = true;
  report = false;
  revocation_check = none;
  revocation_method = ValidationMethod.unset;
  responder_url = [];
  trusted_certs = [];
}

abbrev pub ocsp_query : Signer → ValidateInput
ocsp_query x = record {
  cert = x.certificate.pem;
  method = ValidationMethod.ocsp;
  check_time = none;
  encoding = CertEncoding.pem;
  want_ocsp = true;
  responder_url = [];
  crl_bytes = [];
  trusted_certs = [];
}

-- the domain, and bytes.TrimSpace
pub record Domain : Type 0 where
  pub verifier : VerifyInput → Result Error VerifyOutput
  pub validator : ValidateInput → Result Error ValidateOutput
  pub trim_space : Text → Text

module _ (d : Domain) (cfg : Config) where
  -- the revocation check of the flow
  unfoldable pub check_revocation : Signer → Result Error (Unit {0})
  check_revocation x =
      if cfg.require_ocsp
      then elim (d.validator (ocsp_query x)) [
        | err e ↦ err e
        | ok out ↦ if out.status.revoked then err cert_revoked else ok tt
      ]
      else ok tt

  -- `verifyChallengeSignature` once the challenge is consumed
  unfoldable pub verify_signed : Challenge → Text → ℕ → Result Error (Claims × Text)
  unfolding looks_pem check_revocation lookup
  verify_signed c signature now =
      if not (ltb now c.expires_at)
      then err (of_challenge ChallengeStore.expired)
      else if is_empty signature
      then err signature_rejected
      else elim (d.verifier (nonce_query (looks_pem d.trim_space signature) c.nonce signature)) [
        | err e ↦ err e
        | ok out ↦ elim out.signers [
          | [] ↦ err signature_rejected
          | x ∷ xs ↦ elim x.claims [
            | none ↦ err signature_rejected
            | some claims ↦
                let nonce : Text = elim (lookup (codes "clientNonce") c.meta) [
                  | none ↦ []
                  | some n ↦ n
                ] in
                if not out.valid || is_empty claims.sub
                then err signature_rejected
                else elim (check_revocation x) [ err e ↦ err e | ok _ ↦ ok (claims, nonce) ]
          ]
        ]
      ]

  -- `verifyChallengeSignature`
  unfoldable pub verify_challenge_signature :
      Store → Text → Text → ℕ → Result Error (Claims × Text) × Store
  unfolding consume verify_signed
  verify_challenge_signature m id signature now =
      let (got, m') = consume m id in
      elim got [ err e ↦ (err (of_challenge e), m') | ok c ↦ (verify_signed c signature now, m') ]

-- `firstNonEmpty` on the three candidates for the audience
abbrev pub audience : Config → Text → Text
audience cfg client_id =
    if not (is_empty client_id)
    then client_id
    else if not (is_empty cfg.audience)
    then cfg.audience
    else cfg.issuer

-- the claims that both tokens carry
unfoldable pub common_claims : Config → Claims → ℕ → TokenClaims
unfolding insert claims_to_map
common_claims cfg c now = insert (codes "exp") (Value.number ((now + cfg.token_ttl) / second)) (
    insert (codes "iat") (Value.number (now / second)) (
      insert (codes "sub") (Value.text c.sub)
        (insert (codes "iss") (Value.text cfg.issuer) (claims_to_map c))))

unfoldable pub id_claims : Config → Claims → Text → Text → ℕ → TokenClaims
unfolding insert common_claims
id_claims cfg c client_id nonce now =
    let m =
      insert (codes "aud") (Value.text (audience cfg client_id))
        (insert (codes "auth_time") (Value.number (now / second)) (common_claims cfg c now)) in
    if is_empty nonce then m else insert (codes "nonce") (Value.text nonce) m

unfoldable pub access_claims : Config → Claims → ℕ → TokenClaims
unfolding insert common_claims
access_claims cfg c now =
    insert (codes "token_use") (Value.text (codes "access")) (common_claims cfg c now)

module _ (k : Crypto) (cfg : Config) where
  -- `Provider.IssueTokens`
  unfoldable pub issue_tokens : Claims → Text → Text → ℕ → Result Error TokenResponse
  unfolding sign id_claims access_claims
  issue_tokens c client_id nonce now = do
    id_token ← sign k (id_claims cfg c client_id nonce now)
    access_token ← sign k (access_claims cfg c now)
    ok (record {
      id_token = id_token;
      access_token = access_token;
      token_type = codes "Bearer";
      expires_in = cfg.token_ttl / second;
    })

  -- `Provider.UserInfo`
  unfoldable pub user_info : (Text → Text) → Text → ℕ → Result Error TokenClaims
  unfolding verify
  user_info trim_space bearer now = verify k (trim_space bearer) now

-- `Provider.Verify`
unfoldable pub verify_login :
    Domain
    → Crypto
    → Config
    → Store
    → Text
    → Text
    → Text
    → ℕ
    → ℕ
    → Result Error TokenResponse × Store
unfolding verify_challenge_signature issue_tokens
verify_login d k cfg m id signature client_id checked issued =
    let (got, m') = verify_challenge_signature d cfg m id signature checked in
    elim got [
      | err e ↦ (err e, m')
      | ok (claims, nonce) ↦ (issue_tokens k cfg claims client_id nonce issued, m')
    ]
