-- ===== src/Oidc/Signer.antt =====
-- signer.go: tokens as compact RS256 signatures. The key, encoding/json, base64 and crypto/rsa over
-- SHA-256 are arguments.
use qoltanba.Prelude.{
  ℕ, ◌*◌, ltb, if◌then◌else◌, Bool, false, not, Option, none, some, [], ◌∷◌, ◌++◌, Text, codes,
  lookup, split, Result, ok, err,
}
use qoltanba.Oidc.Contract.{Error, token_invalid, token_expired, Value, number, TokenClaims}

-- what the signer calls: JSON of the header and of the claims, base64url, and the RSA key
pub record Crypto : Type 0 where
  pub header : Text
  pub encode_json : TokenClaims → Result Error Text
  pub decode_json : Text → Option TokenClaims
  pub encode_base64 : Text → Text
  pub decode_base64 : Text → Option Text
  pub sign_rsa : Text → Result Error Text
  pub verify_rsa : Text → Text → Bool

-- the separator of the three parts
abbrev pub dot : ℕ
dot = 46

abbrev pub second : ℕ
second = 1000000000

-- the part of a token that is signed
abbrev pub signing_input : Crypto → Text → Text
signing_input k payload = k.encode_base64 k.header ++ dot ∷ k.encode_base64 payload

-- `Signer.Sign`
unfoldable pub sign : Crypto → TokenClaims → Result Error Text
sign k claims = elim (k.encode_json claims) [
  | err e ↦ err e
  | ok payload ↦
      let input = signing_input k payload in
      elim (k.sign_rsa input) [ err e ↦ err e | ok sig ↦ ok (input ++ dot ∷ k.encode_base64 sig) ]
]

-- the clock has passed the number of seconds that `exp` holds
abbrev pub is_over : ℕ → Option Value → Bool
is_over now (some (number exp)) = ltb (exp * second) now
is_over now (some (Value.text _)) = false
is_over now (some (Value.texts _)) = false
is_over now none = false

-- `Signer.Verify` on the three parts
unfoldable pub verify_parts : Crypto → Text → Text → Text → ℕ → Result Error TokenClaims
unfolding lookup
verify_parts k h p s now = elim (k.decode_base64 s) [
  | none ↦ err token_invalid
  | some sig ↦
      if not (k.verify_rsa (h ++ dot ∷ p) sig)
      then err token_invalid
      else elim (k.decode_base64 p) [
        | none ↦ err token_invalid
        | some payload ↦ elim (k.decode_json payload) [
          | none ↦ err token_invalid
          | some claims ↦
              if is_over now (lookup (codes "exp") claims) then err token_expired else ok claims
        ]
      ]
]

-- `Signer.Verify`
unfoldable pub verify : Crypto → Text → ℕ → Result Error TokenClaims
unfolding split verify_parts
verify k token now = elim (split dot token) [
  | h ∷ p ∷ s ∷ [] ↦ verify_parts k h p s now
  | _ ↦ err token_invalid
]
