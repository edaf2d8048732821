-- ===== src/Oidc/Exchange.antt =====
-- authcode.go: what an exchange that gives tokens has checked, and that a code is good for one.
use qoltanba.Prelude.{
  ℕ, ◌≡◌, sym, ◌∙◌, ap, subst, ◌⊎◌, inl, inr, Bool, false, Option, none, Text, text_eq,
  text_eq_refl, Map, lookup, lookup-insert, lookup-delete_if, ok, err, arith, Result-cases,
  Option-cases,
}
use qoltanba.Oidc.Contract.{Error, code_invalid}
use qoltanba.Oidc.Signer.{Crypto}
use qoltanba.Oidc.Clients.{Client}
use qoltanba.Oidc.Provider.{Config, Domain}
use qoltanba.Oidc.Authcode.{
  AuthorizeRequest, TokenRequest, State, is_past, put, take, reap, complete_authorization,
  authenticate, exchange,
}
use qoltanba.Oidc.Redemption.{
  IsGuarded, IsKeyed, lookup-take, put-IsGuarded, take-IsGuarded, reap-IsGuarded,
  complete_authorization_lem,
}

module _ (fold_eq : Text → Text → Bool) (clients : Map Client) (d : Domain) (k : Crypto)
    (cfg : Config) (challenge_of : Text → Text)
    (redirect_to : Text → Text → Text → Option Text) where
  -- one call that changes the codes; a new code is another random one than the one that is followed
  pub data Step (code : Text) (s : State) : State → Type 0 where
    authorized :
        (req : AuthorizeRequest) (challenge_id signature fresh : Text) (checked issued : ℕ)
        → text_eq fresh code ≡ false
        → Step code s
            (complete_authorization fold_eq clients d cfg redirect_to s req challenge_id signature
              (ok fresh)
              checked
              issued).1
    exchanged :
        (req : TokenRequest) (now issued : ℕ)
        → Step code s (exchange fold_eq clients challenge_of k cfg s req now issued).1
    reaped : (now : ℕ) → Step code s (record s { codes = reap s.codes now })

  pub data Reach (code : Text) (s : State) : State → Type 0 where
    here : Reach code s s
    next : {s' s'' : State} → Reach code s s' → Step code s' s'' → Reach code s s''

  -- an exchange takes its code, or leaves the codes alone where it is refused before that
  codes-exchange :
      (s : State) (req : TokenRequest) (now issued : ℕ)
      → let s' = (exchange fold_eq clients challenge_of k cfg s req now issued).1 in
        (s'.codes ≡ s.codes) ⊎ (s'.codes ≡ (take s.codes req.code now).1)
  unfolding exchange
  codes-exchange s req now issued =
      elim (Result-cases (authenticate fold_eq clients challenge_of k cfg req)) [
        | inr (e, refused) ↦ inl (ground arith)
        | inl (client, known) ↦ elim (Option-cases (take s.codes req.code now).0) [
          | inl gone ↦ inr (ground arith)
          | inr (c, taken) ↦ inr (ground arith)
        ]
      ]

  Step-IsGuarded :
      (code : Text) (s s' : State)
      → IsKeyed fold_eq clients
      → IsGuarded fold_eq clients s.codes
      → Step code s s'
      → IsGuarded fold_eq clients s'.codes
  Step-IsGuarded code s s' keyed g
        (authorized req challenge_id signature fresh checked issued other) =
      elim (complete_authorization_lem fold_eq clients d cfg redirect_to s req challenge_id
        signature fresh checked issued keyed) [
          | inl same ↦ subst (IsGuarded fold_eq clients) (sym same) g
          | inr (c, stored, bound) ↦
              subst (IsGuarded fold_eq clients) (sym stored)
                (put-IsGuarded fold_eq clients s.codes fresh c g bound)
        ]
  Step-IsGuarded code s s' keyed g (exchanged req now issued) =
      elim (codes-exchange s req now issued) [
        | inl same ↦ subst (IsGuarded fold_eq clients) (sym same) g
        | inr taken ↦
            subst (IsGuarded fold_eq clients) (sym taken)
              (take-IsGuarded fold_eq clients s.codes req.code now g)
      ]
  Step-IsGuarded code s s' keyed g (reaped now) = reap-IsGuarded fold_eq clients s.codes now g

  -- From a provider whose codes are distinct and bound, with its clients under their ids, every
  -- sequence of authorizations, exchanges and sweeps leads to such a provider: each code belongs to a
  -- registered client and one of its redirect URIs, and carries a PKCE challenge where the client has
  -- no secret.
  pub Reach-IsGuarded :
      (code : Text) (s s' : State)
      → IsKeyed fold_eq clients
      → IsGuarded fold_eq clients s.codes
      → Reach code s s'
      → IsGuarded fold_eq clients s'.codes
  Reach-IsGuarded code s s' keyed g here = g
  Reach-IsGuarded code s s' keyed g (next {s' = t} r step) =
      Step-IsGuarded code t s' keyed (Reach-IsGuarded code s t keyed g r) step

  -- the code is not there
  Step-gone :
      (code : Text) (s s' : State)
      → IsKeyed fold_eq clients
      → IsGuarded fold_eq clients s.codes
      → lookup code s.codes ≡ none
      → Step code s s'
      → lookup code s'.codes ≡ none
  unfolding put take reap
  Step-gone code s s' keyed g gone
        (authorized req challenge_id signature fresh checked issued other) =
      elim (complete_authorization_lem fold_eq clients d cfg redirect_to s req challenge_id
        signature fresh checked issued keyed) [
          | inl same ↦ ap (lookup code) same ∙ gone
          | inr (c, stored, bound) ↦
              ap (lookup code) stored ∙ ground (arith, lookup-insert fresh code c s.codes)
        ]
  Step-gone code s s' keyed g gone (exchanged req now issued) =
      elim (codes-exchange s req now issued) [
        | inl same ↦ ap (lookup code) same ∙ gone
        | inr taken ↦
            ap (lookup code) taken ∙ ground (arith, lookup-take s.codes req.code code now g.unique)
      ]
  Step-gone code s s' keyed g gone (reaped now) =
      ground (arith, lookup-delete_if (is_past now) code s.codes g.unique)

  Reach-gone :
      (code : Text) (s s' : State)
      → IsKeyed fold_eq clients
      → IsGuarded fold_eq clients s.codes
      → lookup code s.codes ≡ none
      → Reach code s s'
      → lookup code s'.codes ≡ none
  Reach-gone code s s' keyed g gone here = gone
  Reach-gone code s s' keyed g gone (next {s' = t} r step) =
      Step-gone code t s' keyed (Reach-IsGuarded code s t keyed g r)
        (Reach-gone code s t keyed g gone r) step

  -- an exchange whose client authenticates takes its code
  exchange-takes :
      (s : State) (req : TokenRequest) (client : Client) (now issued : ℕ)
      → authenticate fold_eq clients challenge_of k cfg req ≡ ok client
      → (exchange fold_eq clients challenge_of k cfg s req now issued).1.codes
        ≡ (take s.codes req.code now).1
  unfolding exchange
  exchange-takes s req client now issued known = elim (Option-cases (take s.codes req.code now).0) [
    | inl gone ↦ ground arith
    | inr (c, taken) ↦ ground arith
  ]

  -- A code is good for one exchange: once a client that authenticates itself has presented it,
  -- whatever came of it, every later exchange with it gives no tokens, whatever is authorized (under
  -- other codes), exchanged or swept in between.
  pub exchange-once :
      (s s' : State) (req again : TokenRequest) (client : Client) (now issued later issued' : ℕ)
      → IsKeyed fold_eq clients
      → IsGuarded fold_eq clients s.codes
      → authenticate fold_eq clients challenge_of k cfg req ≡ ok client
      → again.code ≡ req.code
      → Reach req.code (exchange fold_eq clients challenge_of k cfg s req now issued).1 s'
      → (e : Error) × ((exchange fold_eq clients challenge_of k cfg s' again later issued').0
          ≡ err e)
  unfolding exchange take
  exchange-once s s' req again client now issued later issued' keyed g known same r =
      let after = (exchange fold_eq clients challenge_of k cfg s req now issued).1 in
      let taken : after.codes ≡ (take s.codes req.code now).1 =
        exchange-takes s req client now issued known in
      let g' : IsGuarded fold_eq clients after.codes =
        subst (IsGuarded fold_eq clients) (sym taken)
          (take-IsGuarded fold_eq clients s.codes req.code now g) in
      let away : lookup req.code after.codes ≡ none =
        ap (lookup req.code) taken
        ∙ ground
            (arith, lookup-take s.codes req.code req.code now g.unique, text_eq_refl req.code) in
      let gone : lookup again.code s'.codes ≡ none =
        ap (λ c. lookup c s'.codes) same ∙ Reach-gone req.code after s' keyed g' away r in
      elim (Result-cases (authenticate fold_eq clients challenge_of k cfg again)) [
        | inr (e, refused) ↦ (e, ground arith)
        | inl (other, trusted) ↦ (code_invalid, ground arith)
      ]
