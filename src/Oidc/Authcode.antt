-- ===== src/Oidc/Authcode.antt =====
-- authcode.go: authorization codes, and their exchange for tokens. `fold_eq` stands for
-- strings.EqualFold, `challenge_of` for base64url of SHA-256, `redirect_to` for the URL with the code
-- and the state in its query, which fails where net/url cannot parse the URI.
use qoltanba.Prelude.{
  ℕ, ◌+◌, ◌*◌, ltb, if◌then◌else◌, Bool, false, not, ◌||◌, ◌&&◌, Option, none, some, Text, codes,
  text_eq, is_empty, Map, lookup, insert, delete, delete_if, Result, ok, err,
}
use qoltanba.Core.Contract.{Claims}
use qoltanba.Challenge.Store.{Store}
use qoltanba.Oidc.Contract.{
  Error, unknown_client, redirect_mismatch, unsupported_flow, pkce_required, pkce_failed,
  code_invalid, client_auth, TokenResponse,
}
use qoltanba.Oidc.Signer.{Crypto, second}
use qoltanba.Oidc.Clients.{Client, redirect_allowed}
use qoltanba.Oidc.Provider.{Config, Domain, verify_challenge_signature, issue_tokens}

pub record AuthorizeRequest : Type 0 where
  pub client_id : Text
  pub redirect_uri : Text
  pub response_type : Text
  pub scope : Text
  pub state : Text
  pub nonce : Text
  pub code_challenge : Text
  pub code_challenge_method : Text

pub record AuthCode : Type 0 where
  pub client_id : Text
  pub redirect_uri : Text
  pub nonce : Text
  pub claims : Claims
  pub code_challenge : Text
  pub expires_at : ℕ

pub record TokenRequest : Type 0 where
  pub grant_type : Text
  pub code : Text
  pub redirect_uri : Text
  pub client_id : Text
  pub client_secret : Text
  pub code_verifier : Text

-- `codeStore`
abbrev pub Codes : Type 0
Codes = Map AuthCode

-- `authCodeTTL`
abbrev pub auth_code_ttl : ℕ
auth_code_ttl = 60 * second

-- `!c.expiresAt.After(now)`
unfoldable pub is_past : ℕ → AuthCode → Bool
is_past now c = not (ltb now c.expires_at)

-- `codeStore.put`
unfoldable pub put : Codes → Text → AuthCode → Codes
unfolding insert
put m code c = insert code c m

-- `codeStore.take`: the code, if it is there and in time, and the store without it
unfoldable pub take : Codes → Text → ℕ → Option AuthCode × Codes
unfolding lookup delete is_past
take m code now = elim (lookup code m) [
  | none ↦ (none, m)
  | some c ↦ (if is_past now c then none else some c, delete code m)
]

-- `codeStore.reap`
unfoldable pub reap : Codes → ℕ → Codes
unfolding is_past delete_if
reap m now = delete_if (is_past now) m

-- the challenges and the codes of a provider
pub record State : Type 0 where
  pub challenges : Store
  pub codes : Codes

module _ (fold_eq : Text → Text → Bool) (clients : Map Client) where
  -- `Provider.ValidateAuthorize`; the client that goes with a later error is left out
  unfoldable pub validate_authorize : AuthorizeRequest → Result Error Client
  unfolding lookup redirect_allowed
  validate_authorize req = elim (lookup req.client_id clients) [
    | none ↦ err unknown_client
    | some client ↦
        let is_s256 = fold_eq req.code_challenge_method (codes "S256") in
        if is_empty req.redirect_uri || not (redirect_allowed client req.redirect_uri)
        then err redirect_mismatch
        else if not (text_eq req.response_type (codes "code"))
        then err unsupported_flow
        else if is_empty client.secret && (is_empty req.code_challenge || not is_s256)
        then err pkce_required
        else if not (is_empty req.code_challenge) && not is_s256
        then err pkce_required
        else ok client
  ]

  module _ (d : Domain) (cfg : Config) where
    abbrev pub new_code : Client → AuthorizeRequest → Claims → ℕ → AuthCode
    new_code client req claims now = record {
      client_id = client.id;
      redirect_uri = req.redirect_uri;
      nonce = req.nonce;
      claims = claims;
      code_challenge = req.code_challenge;
      expires_at = now + auth_code_ttl;
    }

    -- `Provider.CompleteAuthorization`, at the time of the check and of the code
    unfoldable pub complete_authorization :
        (Text → Text → Text → Option Text)
        → State
        → AuthorizeRequest
        → Text
        → Text
        → Result Error Text
        → ℕ
        → ℕ
        → Result Error Text × State
    unfolding validate_authorize verify_challenge_signature put
    complete_authorization redirect_to s req challenge_id signature fresh checked issued =
        elim (validate_authorize req) [
          | err e ↦ (err e, s)
          | ok client ↦
              let (got, m) =
                verify_challenge_signature d cfg s.challenges challenge_id signature checked in
              let s' = record s { challenges = m } in
              elim got [
                | err e ↦ (err e, s')
                | ok (claims, nonce) ↦ elim fresh [
                  | err e ↦ (err e, s')
                  | ok code ↦
                      let s'' = record s' {
                        codes = put s.codes code (new_code client req claims issued);
                      } in
                      elim (redirect_to req.redirect_uri code req.state) [
                        | none ↦ (err redirect_mismatch, s'')
                        | some url ↦ (ok url, s'')
                      ]
                ]
              ]
        ]

  module _ (challenge_of : Text → Text) (k : Crypto) (cfg : Config) where
    -- `verifyPKCE`
    unfoldable pub verify_pkce : Text → Text → Bool
    verify_pkce challenge verifier =
        if is_empty verifier then false else text_eq challenge (challenge_of verifier)

    -- `Exchange` once the code is taken
    unfoldable pub redeem : TokenRequest → AuthCode → ℕ → Result Error TokenResponse
    unfolding verify_pkce issue_tokens
    redeem req c now =
        if not (text_eq c.client_id req.client_id) || not (text_eq c.redirect_uri req.redirect_uri)
        then err code_invalid
        else if not (is_empty c.code_challenge)
            && not (verify_pkce c.code_challenge req.code_verifier)
        then err pkce_failed
        else issue_tokens k cfg c.claims req.client_id c.nonce now

    -- the client of a request that authenticates itself
    unfoldable pub authenticate : TokenRequest → Result Error Client
    unfolding lookup
    authenticate req =
        let found : Result Error Client = elim (lookup req.client_id clients) [
          | none ↦ err unknown_client
          | some client ↦
              if not (is_empty client.secret) && not (text_eq client.secret req.client_secret)
              then err client_auth
              else ok client
        ] in
        if not (text_eq req.grant_type (codes "authorization_code"))
        then err unsupported_flow
        else found

    -- `Provider.Exchange`, at the time of the take and of the tokens
    unfoldable pub exchange : State → TokenRequest → ℕ → ℕ → Result Error TokenResponse × State
    unfolding authenticate take redeem
    exchange s req now issued = elim (authenticate req) [
      | err e ↦ (err e, s)
      | ok client ↦
          let (taken, m) = take s.codes req.code now in
          let s' = record s { codes = m } in
          elim taken [ none ↦ (err code_invalid, s') | some c ↦ (redeem req c issued, s') ]
    ]
