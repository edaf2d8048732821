-- ===== src/Oidc/Redemption.antt =====
-- authcode.go: what a code is bound to, from its issue on.
use qoltanba.Prelude.{
  ℕ, ◌≡◌, sym, ◌∙◌, ap, subst, ◌⊎◌, inl, inr, if◌then◌else◌, Bool, true, false, not, ◌||◌, Option,
  none, some, Text, codes, text_eq, text_eq_iff, is_empty, Map, lookup, delete, IsUnique,
  lookup-insert, lookup-delete, lookup-delete_if, insert-IsUnique, delete-IsUnique,
  delete_if-IsUnique, ok, arith, Result-cases, Option-cases, Bool-cases,
}
use qoltanba.Oidc.Clients.{Client, redirect_allowed}
use qoltanba.Oidc.Provider.{Config, Domain, verify_challenge_signature}
use qoltanba.Oidc.Authcode.{
  AuthorizeRequest, AuthCode, Codes, State, is_past, put, take, reap, validate_authorize, new_code,
  complete_authorization,
}

-- a code that is taken is gone, and no other
pub lookup-take :
    (m : Codes) (code j : Text) (now : ℕ)
    → IsUnique m
    → lookup j (take m code now).1 ≡ (if text_eq code j then none else lookup j m)
unfolding take
lookup-take m code j now u = elim (Option-cases (lookup code m)) [
  | inl unknown ↦ ground (arith, text_eq_iff code j)
  | inr (c, found) ↦ ground (arith, lookup-delete code j m u)
]

module _ (fold_eq : Text → Text → Bool) (clients : Map Client) where
  -- the client is registered with the redirect URI, and the code has a PKCE challenge where the
  -- client has no secret
  abbrev pub IsBound : AuthCode → Type 0
  IsBound c =
      (client : Client) × (lookup c.client_id clients ≡ some client)
      × (redirect_allowed client c.redirect_uri ≡ true)
      × ((is_empty client.secret ≡ false) ⊎ (is_empty c.code_challenge ≡ false))

  -- codes are distinct, and each is bound
  pub record IsGuarded (m : Codes) : Type 0 where
    pub unique : IsUnique m
    pub bound : (code : Text) (c : AuthCode) → lookup code m ≡ some c → IsBound c

  -- every client stands under its id
  abbrev pub IsKeyed : Type 0
  IsKeyed = (k : Text) (client : Client) → lookup k clients ≡ some client → client.id ≡ k

  pub put-IsGuarded :
      (m : Codes) (code : Text) (c : AuthCode) → IsGuarded m → IsBound c → IsGuarded (put m code c)
  unfolding put
  put-IsGuarded m code c g b = record {
    unique = insert-IsUnique code c m g.unique;
    bound = λ k t found. elim (Bool-cases (text_eq code k)) [
      | inl same ↦ let e : c ≡ t = ground (arith, lookup-insert code k c m) in subst IsBound e b
      | inr other ↦ g.bound k t (ground (arith, lookup-insert code k c m))
    ];
  }

  pub take-IsGuarded :
      (m : Codes) (code : Text) (now : ℕ) → IsGuarded m → IsGuarded (take m code now).1
  unfolding take
  take-IsGuarded m code now g = elim (Option-cases (lookup code m)) [
    | inl unknown ↦ subst IsGuarded (sym (ground arith)) g
    | inr (c, found) ↦
        let left : IsGuarded (delete code m) = record {
          unique = delete-IsUnique code m g.unique;
          bound = λ k t there. g.bound k t (ground (arith, lookup-delete code k m g.unique));
        } in
        subst IsGuarded (sym (ground arith)) left
  ]

  pub reap-IsGuarded : (m : Codes) (now : ℕ) → IsGuarded m → IsGuarded (reap m now)
  unfolding reap
  reap-IsGuarded m now g = record {
    unique = delete_if-IsUnique (is_past now) m g.unique;
    bound = λ k t there. elim (Option-cases (lookup k m)) [
      | inl unknown ↦ absurd (ground (arith, lookup-delete_if (is_past now) k m g.unique))
      | inr (c, found) ↦
          let e : c ≡ t = ground (arith, lookup-delete_if (is_past now) k m g.unique) in
          subst IsBound e (g.bound k c found)
    ];
  }

  -- a request that is valid makes a code that is bound
  validate_authorize_lem :
      (req : AuthorizeRequest) (client : Client)
      → validate_authorize fold_eq clients req ≡ ok client
      → (lookup req.client_id clients ≡ some client)
        × (redirect_allowed client req.redirect_uri ≡ true)
        × ((is_empty client.secret ≡ false) ⊎ (is_empty req.code_challenge ≡ false))
  unfolding validate_authorize
  validate_authorize_lem req client h = elim (Option-cases (lookup req.client_id clients)) [
    | inl unknown ↦ absurd (ground arith)
    | inr (registered, found) ↦
        elim (Bool-cases
          (is_empty req.redirect_uri || not (redirect_allowed registered req.redirect_uri))) [
            | inl astray ↦ absurd (ground arith)
            | inr allowed ↦ elim (Bool-cases (text_eq req.response_type (codes "code"))) [
              | inr other ↦ absurd (ground arith)
              | inl asked ↦ elim (Bool-cases (is_empty registered.secret)) [
                | inr secret ↦ (ground arith, ground arith, inl (ground arith))
                | inl public ↦ elim (Bool-cases (is_empty req.code_challenge)) [
                  | inl bare ↦ absurd (ground arith)
                  | inr challenged ↦ (ground arith, ground arith, inr challenged)
                ]
              ]
            ]
          ]
  ]

  module _ (d : Domain) (cfg : Config) (redirect_to : Text → Text → Text → Option Text) where
    -- a completed authorization changes the codes by one that is bound, under the id that was drawn
    pub complete_authorization_lem :
        (s : State) (req : AuthorizeRequest) (challenge_id signature fresh : Text)
        (checked issued : ℕ)
        → IsKeyed
        → let s' =
            (complete_authorization fold_eq clients d cfg redirect_to s req challenge_id signature
              (ok fresh)
              checked
              issued).1 in
          (s'.codes ≡ s.codes) ⊎ ((c : AuthCode) × (s'.codes ≡ put s.codes fresh c) × IsBound c)
    unfolding complete_authorization
    complete_authorization_lem s req challenge_id signature fresh checked issued keyed =
        elim (Result-cases (validate_authorize fold_eq clients req)) [
          | inr (e, refused) ↦ inl (ground arith)
          | inl (client, valid) ↦
              let (found, allowed, pkce) = validate_authorize_lem req client valid in
              elim (Result-cases
                (verify_challenge_signature d cfg s.challenges challenge_id signature checked).0) [
                  | inr (e, failed) ↦ inl (ground arith)
                  | inl ((claims, nonce), verified) ↦ inr (
                    new_code fold_eq clients d cfg client req claims issued,
                    elim (Option-cases (redirect_to req.redirect_uri fresh req.state)) [
                      | inl bad ↦ ground arith
                      | inr (url, good) ↦ ground arith
                    ],
                    (
                      client,
                      ap (λ k. lookup k clients) (keyed req.client_id client found) ∙ found,
                      allowed,
                      pkce,
                    ),
                  )
                ]
        ]
