-- ===== src/Oidc/Tokens.antt =====
-- signer.go and oidc.go: a token that is signed can be read until it is over.
use qoltanba.Prelude.{
  ℕ, ◌+◌, ◌/◌, ◌*◌, ltb, ◌≡◌, inl, inr, refl, sym, ◌∙◌, ap, true, false, some, [], ◌∷◌, ◌++◌,
  append_assoc, Text, text_eq, text_eq_refl, codes, is_empty, lookup, insert, lookup-insert, split,
  is_whole, split-whole, split-append, ok, arith, Result-cases, Bool-cases, ok-injective,
}
use qoltanba.Core.Contract.{Claims}
use qoltanba.Oidc.Contract.{Error, Value, number, TokenClaims, TokenResponse}
use qoltanba.Oidc.Signer.{Crypto, dot, second, signing_input, sign, is_over, verify_parts, verify}
use qoltanba.Oidc.Provider.{
  Config, audience, common_claims, id_claims, access_claims, issue_tokens, user_info,
}

-- base64url round-trips and has no dots, and what the key signs it accepts
pub record IsSound (k : Crypto) : Type 0 where
  pub base64 : (t : Text) → k.decode_base64 (k.encode_base64 t) ≡ some t
  pub dotless : (t : Text) → is_whole dot (k.encode_base64 t) ≡ true
  pub rsa : (t sig : Text) → k.sign_rsa t ≡ ok sig → k.verify_rsa t sig ≡ true

-- the same claims, in whatever order
abbrev pub IsSame : TokenClaims → TokenClaims → Type 0
IsSame m m' = (j : Text) → lookup j m' ≡ lookup j m

-- JSON of these claims can be read again, up to their order
abbrev pub IsReadable : Crypto → TokenClaims → Type 0
IsReadable k m =
    (payload : Text)
    → k.encode_json m ≡ ok payload
    → (m' : TokenClaims) × (k.decode_json payload ≡ some m') × IsSame m m'

split-token :
    (k : Crypto) (payload sig : Text)
    → IsSound k
    → split dot (signing_input k payload ++ dot ∷ k.encode_base64 sig)
      ≡ k.encode_base64 k.header ∷ k.encode_base64 payload ∷ k.encode_base64 sig ∷ []
split-token k payload sig s =
    let h = k.encode_base64 k.header in
    let p = k.encode_base64 payload in
    let e = k.encode_base64 sig in
    ap (split dot) (append_assoc h (dot ∷ p) (dot ∷ e))
    ∙ split-append dot h (p ++ dot ∷ e) (s.dotless k.header)
    ∙ ap (λ t. h ∷ t)
        (split-append dot p e (s.dotless payload)
          ∙ ap (λ t. p ∷ t) (split-whole dot e (s.dotless sig)))

-- the token of a payload and its signature is read as the payload's claims
verify_token :
    (k : Crypto) (payload sig : Text) (m : TokenClaims) (now : ℕ)
    → IsSound k
    → k.verify_rsa (signing_input k payload) sig ≡ true
    → k.decode_json payload ≡ some m
    → is_over now (lookup (codes "exp") m) ≡ false
    → verify k (signing_input k payload ++ dot ∷ k.encode_base64 sig) now ≡ ok m
unfolding verify verify_parts
verify_token k payload sig m now s genuine read live =
    rw (split-token k payload sig s, verify) (ground (arith, s.base64 sig, s.base64 payload))

-- A token that the signer signs is one that it verifies, with the same claims, at every time at which
-- its `exp` is not passed, provided that base64url and RSA behave and that the claims survive JSON.
pub sign-verify :
    (k : Crypto) (claims : TokenClaims) (token : Text) (now : ℕ)
    → IsSound k
    → IsReadable k claims
    → sign k claims ≡ ok token
    → is_over now (lookup (codes "exp") claims) ≡ false
    → (m : TokenClaims) × (verify k token now ≡ ok m) × IsSame claims m
unfolding sign
sign-verify k claims token now s readable h live = elim (Result-cases (k.encode_json claims)) [
  | inr (e, failed) ↦ absurd (ground arith)
  | inl (payload, encoded) ↦ elim (Result-cases (k.sign_rsa (signing_input k payload))) [
    | inr (e, failed) ↦ absurd (ground arith)
    | inl (sig, signed) ↦
        let whole : Text = signing_input k payload ++ dot ∷ k.encode_base64 sig in
        let e : whole ≡ token = ok-injective {E = Error} whole token (ground arith) in
        let (m, read, same) = readable payload encoded in
        let live' = ap (is_over now) (same (codes "exp")) ∙ live in
        let genuine = s.rsa (signing_input k payload) sig signed in
        (
          m,
          ap (λ t. verify k t now) (sym e) ∙ verify_token k payload sig m now s genuine read live',
          same,
        )
  ]
]

-- the time up to which tokens are issued for
abbrev pub expiry : Config → ℕ → ℕ
expiry cfg issued = (issued + cfg.token_ttl) / second

-- a claim under another name does not hide one
lookup_past :
    (k j : Text) (v : Value) (m : TokenClaims)
    → text_eq k j ≡ false
    → lookup j (insert k v m) ≡ lookup j m
lookup_past k j v m apart = ground (arith, lookup-insert k j v m)

lookup_hit : (k : Text) (v : Value) (m : TokenClaims) → lookup k (insert k v m) ≡ some v
lookup_hit k v m = ground (arith, lookup-insert k k v m, text_eq_refl k)

exp_common_claims :
    (cfg : Config) (c : Claims) (now : ℕ)
    → lookup (codes "exp") (common_claims cfg c now) ≡ some (number (expiry cfg now))
unfolding common_claims
exp_common_claims cfg c now = lookup_hit (codes "exp") (number (expiry cfg now)) _

exp_id_claims :
    (cfg : Config) (c : Claims) (client_id nonce : Text) (now : ℕ)
    → lookup (codes "exp") (id_claims cfg c client_id nonce now) ≡ some (number (expiry cfg now))
unfolding id_claims text_eq
exp_id_claims cfg c client_id nonce now =
    let under = exp_common_claims cfg c now in
    let with_time =
      lookup_past (codes "auth_time") (codes "exp") (number (now / second))
        (common_claims cfg c now) refl
      ∙ under in
    let with_aud =
      lookup_past (codes "aud") (codes "exp") (Value.text (audience cfg client_id)) _ refl
      ∙ with_time in
    elim (Bool-cases (is_empty nonce)) [
      | inl none_given ↦ rw (none_given, id_claims) with_aud
      | inr given ↦
          rw (given, id_claims)
            (lookup_past (codes "nonce") (codes "exp") (Value.text nonce) _ refl ∙ with_aud)
    ]

exp_access_claims :
    (cfg : Config) (c : Claims) (now : ℕ)
    → lookup (codes "exp") (access_claims cfg c now) ≡ some (number (expiry cfg now))
unfolding access_claims text_eq
exp_access_claims cfg c now =
    lookup_past (codes "token_use") (codes "exp") (Value.text (codes "access"))
      (common_claims cfg c now) refl
    ∙ exp_common_claims cfg c now

-- Tokens that are issued are valid at `UserInfo` until the last of their seconds is over: the access
-- token with the claims that were issued, and the id token as well, which `UserInfo` does not tell
-- from an access token. It is provided
-- that base64url and RSA behave, that the claims survive JSON, and that tokens have no white space
-- around them.
pub issue_tokens-user_info :
    (k : Crypto) (cfg : Config) (trim_space : Text → Text) (c : Claims) (client_id nonce : Text)
    (issued now : ℕ) (t : TokenResponse)
    → IsSound k
    → IsReadable k (access_claims cfg c issued)
    → IsReadable k (id_claims cfg c client_id nonce issued)
    → issue_tokens k cfg c client_id nonce issued ≡ ok t
    → ltb (expiry cfg issued * second) now ≡ false
    → trim_space t.access_token ≡ t.access_token
    → trim_space t.id_token ≡ t.id_token
    → ((m : TokenClaims) × (user_info k cfg trim_space t.access_token now ≡ ok m)
        × IsSame (access_claims cfg c issued) m)
      × ((m : TokenClaims) × (user_info k cfg trim_space t.id_token now ≡ ok m)
          × IsSame (id_claims cfg c client_id nonce issued) m)
unfolding issue_tokens user_info
issue_tokens-user_info k cfg trim_space c client_id nonce issued now t s ra ri h live bare bare' =
    elim (Result-cases (sign k (id_claims cfg c client_id nonce issued))) [
      | inr (e, failed) ↦ absurd (ground arith)
      | inl (i, id_signed) ↦ elim (Result-cases (sign k (access_claims cfg c issued))) [
        | inr (e, failed) ↦ absurd (ground arith)
        | inl (a, access_signed) ↦
            let ia : t.id_token ≡ i = ground arith in
            let aa : t.access_token ≡ a = ground arith in
            (
              sign-verify k (access_claims cfg c issued) (trim_space t.access_token) now s ra
                  (access_signed ∙ ap ok (sym (bare ∙ aa)))
                  (ap (is_over now) (exp_access_claims cfg c issued) ∙ live),
              sign-verify k (id_claims cfg c client_id nonce issued) (trim_space t.id_token) now s
                  ri (id_signed ∙ ap ok (sym (bare' ∙ ia)))
                  (ap (is_over now) (exp_id_claims cfg c client_id nonce issued) ∙ live),
            )
      ]
    ]
