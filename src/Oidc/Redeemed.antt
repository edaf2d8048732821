-- ===== src/Oidc/Redeemed.antt =====
-- authcode.go: what an exchange that gives tokens has checked.
use qoltanba.Prelude.{
  ℕ, ◌≡◌, subst, ◌⊎◌, inl, inr, Bool, true, false, some, Text, codes, text_eq, text_eq→eq, is_empty,
  Map, lookup, ok, arith, Result-cases, Option-cases, Bool-cases,
}
use qoltanba.Oidc.Contract.{TokenResponse}
use qoltanba.Oidc.Signer.{Crypto}
use qoltanba.Oidc.Clients.{Client}
use qoltanba.Oidc.Provider.{Config, issue_tokens}
use qoltanba.Oidc.Authcode.{
  AuthCode, TokenRequest, State, is_past, take, verify_pkce, redeem, authenticate, exchange,
}
use qoltanba.Oidc.Redemption.{IsGuarded}

module _ (fold_eq : Text → Text → Bool) (clients : Map Client) (k : Crypto) (cfg : Config)
    (challenge_of : Text → Text) where
  -- the client gives its secret, or has none
  abbrev pub IsAuthentic : Client → TokenRequest → Type 0
  IsAuthentic client req =
      (is_empty client.secret ≡ true)
      ⊎ ((is_empty client.secret ≡ false) × (client.secret ≡ req.client_secret))

  -- the verifier answers the challenge of the code, or the code has none
  abbrev pub IsProved : AuthCode → TokenRequest → Type 0
  IsProved c req =
      (is_empty c.code_challenge ≡ true) ⊎ (c.code_challenge ≡ challenge_of req.code_verifier)

  -- a client with a secret gave it, and answered the challenge where the code has one; a client
  -- without a secret answered a challenge, which the code has
  abbrev pub IsEntitled : Client → AuthCode → TokenRequest → Type 0
  IsEntitled client c req =
      ((is_empty client.secret ≡ false) × (client.secret ≡ req.client_secret) × IsProved c req)
      ⊎ ((is_empty client.secret ≡ true)
          × (is_empty c.code_challenge ≡ false)
          × (c.code_challenge ≡ challenge_of req.code_verifier))

  authenticate_sound :
      (req : TokenRequest) (client : Client)
      → authenticate fold_eq clients challenge_of k cfg req ≡ ok client
      → (lookup req.client_id clients ≡ some client) × IsAuthentic client req
  unfolding authenticate
  authenticate_sound req client h =
      elim (Bool-cases (text_eq req.grant_type (codes "authorization_code"))) [
        | inr other ↦ absurd (ground arith)
        | inl grant ↦ elim (Option-cases (lookup req.client_id clients)) [
          | inl unknown ↦ absurd (ground arith)
          | inr (registered, found) ↦ elim (Bool-cases (is_empty registered.secret)) [
            | inl public ↦ (ground arith, inl (ground arith))
            | inr secret ↦ elim (Bool-cases (text_eq registered.secret req.client_secret)) [
              | inr wrong ↦ absurd (ground arith)
              | inl right ↦
                  let same = text_eq→eq registered.secret req.client_secret right in
                  (ground arith, inr (ground arith, ground arith))
            ]
          ]
        ]
      ]

  redeem_sound :
      (req : TokenRequest) (c : AuthCode) (now : ℕ) (t : TokenResponse)
      → redeem fold_eq clients challenge_of k cfg req c now ≡ ok t
      → (c.client_id ≡ req.client_id)
        × (c.redirect_uri ≡ req.redirect_uri)
        × IsProved c req
        × (issue_tokens k cfg c.claims req.client_id c.nonce now ≡ ok t)
  unfolding redeem verify_pkce
  redeem_sound req c now t h = elim (Bool-cases (text_eq c.client_id req.client_id)) [
    | inr other ↦ absurd (ground arith)
    | inl client ↦ elim (Bool-cases (text_eq c.redirect_uri req.redirect_uri)) [
      | inr other ↦ absurd (ground arith)
      | inl uri ↦
          let own = text_eq→eq c.client_id req.client_id client in
          let at = text_eq→eq c.redirect_uri req.redirect_uri uri in
          elim (Bool-cases (is_empty c.code_challenge)) [
            | inl bare ↦ (own, at, inl bare, ground arith)
            | inr challenged ↦ elim (Bool-cases (is_empty req.code_verifier)) [
              | inl silent ↦ absurd (ground arith)
              | inr given ↦
                  elim (Bool-cases (text_eq c.code_challenge (challenge_of req.code_verifier))) [
                    | inr wrong ↦ absurd (ground arith)
                    | inl right ↦ (
                      own,
                      at,
                      inr (text_eq→eq c.code_challenge (challenge_of req.code_verifier) right),
                      ground arith,
                    )
                  ]
            ]
          ]
    ]
  ]

  -- In a provider whose codes are bound, an exchange that gives tokens was made in time, with a code
  -- that the provider holds, for the client and the redirect URI that the code was issued for. The
  -- client is registered; either it has a secret and gave it, and proved that it holds the verifier of
  -- the code's PKCE challenge where the code has one; or it has no secret, and the code has a
  -- challenge whose verifier it proved to hold.
  -- The tokens are those of the claims and the nonce that the code was issued with.
  pub exchange_sound :
      (s : State) (req : TokenRequest) (now issued : ℕ) (t : TokenResponse)
      → IsGuarded fold_eq clients s.codes
      → (exchange fold_eq clients challenge_of k cfg s req now issued).0 ≡ ok t
      → (client : Client) × (c : AuthCode) × (lookup req.client_id clients ≡ some client)
        × (lookup req.code s.codes ≡ some c)
        × (is_past now c ≡ false)
        × (c.client_id ≡ req.client_id)
        × (c.redirect_uri ≡ req.redirect_uri)
        × IsEntitled client c req
        × (issue_tokens k cfg c.claims req.client_id c.nonce issued ≡ ok t)
  unfolding exchange take
  exchange_sound s req now issued t g h =
      elim (Result-cases (authenticate fold_eq clients challenge_of k cfg req)) [
        | inr (e, refused) ↦ absurd (ground arith)
        | inl (client, known) ↦ elim (Option-cases (lookup req.code s.codes)) [
          | inl unknown ↦ absurd (ground arith)
          | inr (c, held) ↦ elim (Bool-cases (is_past now c)) [
            | inl past ↦ absurd (ground arith)
            | inr fresh ↦
                let (found, authentic) = authenticate_sound req client known in
                let (own, at, proved, minted) = redeem_sound req c issued t (ground arith) in
                let (owner, registered, allowed, pkce) = g.bound req.code c held in
                let same : owner ≡ client = ground arith in
                (
                  client,
                  c,
                  found,
                  held,
                  fresh,
                  own,
                  at,
                  proof client c authentic proved (
                      subst (λ x. (is_empty x.secret ≡ false) ⊎ (is_empty c.code_challenge ≡ false))
                        same pkce),
                  minted,
                )
          ]
        ]
      ]
    where
      proof :
          (client : Client) (c : AuthCode)
          → IsAuthentic client req
          → IsProved c req
          → (is_empty client.secret ≡ false) ⊎ (is_empty c.code_challenge ≡ false)
          → IsEntitled client c req
      proof client c (inr (secret, same)) proved b = inl (secret, same, proved)
      proof client c (inl public) (inr right) (inr challenged) = inr (public, challenged, right)
      proof client c (inl public) (inr right) (inl secret) = absurd (ground arith)
      proof client c (inl public) (inl bare) b = absurd (ground arith)
