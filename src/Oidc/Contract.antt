-- ===== src/Oidc/Contract.antt =====
-- contract.go and errors.go: tokens, the values of their claims, and errors.
use Prim.Native.String.{String}
use qoltanba.Prelude.{ℕ, if◌then◌else◌, List, [], Text, codes, is_empty, Map, insert}
use qoltanba.Core.Contract.{Claims}
use qoltanba.Challenge.Store as ChallengeStore

-- the challenge errors, the flow errors of errors.go and authcode.go, and any other error
pub data Error : Type 0 where
  of_challenge : ChallengeStore.Error → Error
  signature_rejected cert_revoked token_invalid token_expired : Error
  unknown_client redirect_mismatch unsupported_flow pkce_required pkce_failed : Error
  code_invalid client_auth : Error
  other_error : String → Error

pub record TokenResponse : Type 0 where
  pub id_token : Text
  pub access_token : Text
  pub token_type : Text
  pub expires_in : ℕ

-- a JSON value in the claims of a token
pub data Value : Type 0 where
  text : Text → Value
  number : ℕ → Value
  texts : List Text → Value

abbrev pub TokenClaims : Type 0
TokenClaims = Map Value

-- a field that is left out when it is empty
abbrev put_text : Text → Text → TokenClaims → TokenClaims
put_text k s m = if is_empty s then m else insert k (Value.text s) m

abbrev put_texts : Text → List Text → TokenClaims → TokenClaims
put_texts k xs m = if is_empty xs then m else insert k (Value.texts xs) m

-- `claimsToMap`, with the JSON names of `core.Claims`
unfoldable pub claims_to_map : Claims → TokenClaims
unfolding insert
claims_to_map c = put_text (codes "sub") c.sub (
    put_text (codes "name") c.name (
      put_text (codes "given_name") c.given_name (
        put_text (codes "family_name") c.family_name (
          put_text (codes "email") c.email (
            put_text (codes "iin") c.iin (
              put_text (codes "bin") c.bin (
                put_text (codes "organization") c.organization (
                  put_texts (codes "roles") c.roles (
                    put_text (codes "owner_type") c.owner_type
                      (put_text (codes "gender") c.gender []))))))))))
