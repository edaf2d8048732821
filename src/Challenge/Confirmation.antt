-- ===== src/Challenge/Confirmation.antt =====
-- challenge.go: what a confirmation means, that every challenge that is signed can be confirmed, and
-- what a revocation check that establishes nothing is taken for.
use Prim.Native.String.{String}
use qoltanba.Prelude.{
  ℕ, ◌+◌, ◌/◌, ◌<◌, codes, [], ◌≡◌, refl, ◌⊎◌, inl, inr, ltb, true, false, ◌||◌, none, some, List,
  ◌∷◌, Text, text_eq_refl, lookup, insert, lookup-insert, Result, ok, arith, Bool-cases, List-cases,
  Option-cases, Result-cases,
}
use qoltanba.Core.Contract.{
  SignatureFormat, ValidationMethod, Signer, VerifyInput, VerifyOutput, ValidateInput,
  ValidateOutput,
}
use qoltanba.Challenge.Store.{Challenge, Store, create, consume}
use qoltanba.Challenge.Service.{
  Config, IssueRequest, IssueResponse, second, ConfirmRequest, ConfirmResponse, lifetime,
  new_challenge, issue, nonce_query, ocsp_query, confirmed_by, check_revocation, confirm_signer,
  confirm_challenge, confirm,
}

-- the question whether a signature is a detached CMS over a text, at a certificate in its window
abbrev pub signed_text : Text → Text → VerifyInput
signed_text content signature = record {
  format = SignatureFormat.cms;
  signature = signature;
  content = content;
  detached = true;
  input_pem = false;
  check_cert_time = true;
  extract_claims = true;
  report = false;
  revocation_check = none;
  revocation_method = ValidationMethod.unset;
  responder_url = [];
  trusted_certs = [];
}

module _ (validate : ValidateInput → Result String ValidateOutput)
    (verify : VerifyInput → Result String VerifyOutput) (cfg : Config) where
  -- the revocation check, where one is asked for, is answered, and the answer neither marks the signer
  -- as revoked nor carries a library error; whether the status is determined does not matter
  abbrev pub IsUnopposed : ConfirmRequest → Signer → Type 0
  IsUnopposed req x =
      ((cfg.require_ocsp || req.check_revocation) ≡ false)
      ⊎ ((out : ValidateOutput) × (validate (ocsp_query x.certificate.pem) ≡ ok out)
          × (out.status.revoked ≡ false)
          × (out.status.lib_error ≡ none))

  -- the verifier accepts the signature over the nonce, and this is its first signer
  abbrev pub IsSignedBy : ConfirmRequest → Challenge → Signer → Type 0
  IsSignedBy req c x =
      (out : VerifyOutput) × (others : List Signer) × (verify
          (nonce_query (record c { used = true }) req.signature)
        ≡ ok out)
      × (out.valid ≡ true)
      × (out.signers ≡ x ∷ others)

  confirm_signer-IsUnopposed :
      (req : ConfirmRequest) (c : Challenge) (now : ℕ) (x : Signer) (r : ConfirmResponse)
      → confirm_signer validate cfg req c now x ≡ ok r
      → r.confirmed ≡ true
      → IsUnopposed req x
        × (r.purpose ≡ c.purpose)
        × (r.meta ≡ c.meta)
        × (r.signer ≡ x.claims)
        × (r.certificate ≡ some x.certificate)
  unfolding confirm_signer check_revocation
  confirm_signer-IsUnopposed req c now x r h pos =
      elim (Bool-cases (cfg.require_ocsp || req.check_revocation)) [
        | inr unasked ↦ (inl unasked, ground arith, ground arith, ground arith, ground arith)
        | inl asked ↦ elim (Result-cases (validate (ocsp_query x.certificate.pem))) [
          | inr (e, failed) ↦ absurd (ground arith)
          | inl (out, answered) ↦ elim (Bool-cases out.status.revoked) [
            | inl revoked ↦ absurd (ground arith)
            | inr clear ↦ (
              inr (out, answered, clear, ground arith),
              ground arith,
              ground arith,
              ground arith,
              ground arith,
            )
          ]
        ]
      ]

  confirm_challenge-signed :
      (req : ConfirmRequest) (c : Challenge) (now : ℕ) (r : ConfirmResponse)
      → confirm_challenge validate verify cfg req (record c { used = true }) now ≡ ok r
      → r.confirmed ≡ true
      → (now < c.expires_at)
        × ((x : Signer) × IsSignedBy req c x
            × IsUnopposed req x
            × (r.purpose ≡ c.purpose)
            × (r.meta ≡ c.meta)
            × (r.signer ≡ x.claims)
            × (r.certificate ≡ some x.certificate))
  unfolding confirm_challenge
  confirm_challenge-signed req c now r h pos = elim (Bool-cases (ltb now c.expires_at)) [
    | inr late ↦ absurd (ground arith)
    | inl on_time ↦
        let c' = record c { used = true } in
        elim (Result-cases (verify (nonce_query c' req.signature))) [
          | inr (e, failed) ↦ absurd (ground arith)
          | inl (out, answered) ↦ elim (Bool-cases out.valid) [
            | inr bad ↦ absurd (ground arith)
            | inl good ↦ elim (List-cases out.signers) [
              | inl nobody ↦ absurd (ground arith)
              | inr (x, xs, signers) ↦
                  let parts = confirm_signer-IsUnopposed req c' now x r (ground arith) pos in
                  (
                    ground arith,
                    (
                      x,
                      (out, xs, answered, good, signers),
                      parts.0,
                      parts.1,
                      parts.2,
                      parts.3,
                      parts.4,
                    ),
                  )
            ]
          ]
        ]
  ]

  -- A confirmation that succeeds was given for a challenge of that id that was in the store,
  -- unused and before its end; the verifier accepted the signature as one over the nonce, and the
  -- answer names its first signer with the purpose and the meta data of the challenge; where a
  -- revocation check is required or asked for, it was answered with a status that is not marked as
  -- revoked and carries no library error. That is less than "not revoked": an undetermined status
  -- without an error, the responder's "unknown", is let through.
  pub confirm_sound :
      (m m' : Store) (req : ConfirmRequest) (now : ℕ) (r : ConfirmResponse)
      → confirm validate verify cfg m req now ≡ (ok r, m')
      → r.confirmed ≡ true
      → (c : Challenge) × (lookup req.challenge_id m ≡ some c)
        × (c.used ≡ false)
        × ((now < c.expires_at)
            × ((x : Signer) × IsSignedBy req c x
                × IsUnopposed req x
                × (r.purpose ≡ c.purpose)
                × (r.meta ≡ c.meta)
                × (r.signer ≡ x.claims)
                × (r.certificate ≡ some x.certificate)))
  unfolding confirm consume
  confirm_sound m m' req now r h pos = elim (Option-cases (lookup req.challenge_id m)) [
    | inl unknown ↦ absurd (ground arith)
    | inr (c, found) ↦ elim (Bool-cases c.used) [
      | inl used ↦ absurd (ground arith)
      | inr fresh ↦ (c, found, fresh, confirm_challenge-signed req c now r (ground arith) pos)
    ]
  ]

  -- What is issued can be confirmed: `Issue` answers with the id and the encoded nonce that were
  -- drawn; and a client whose detached signature over that very nonce the verifier accepts, and who
  -- sends it under that id before the lifetime is over, with no revocation check required or asked
  -- for, is confirmed with the purpose and the meta data that the challenge was issued for.
  pub issue-confirm :
      (encode : Text → Text) (m : Store) (ask : IssueRequest) (nonce id : Text) (now later : ℕ)
      (req : ConfirmRequest) (out : VerifyOutput) (x : Signer) (xs : List Signer)
      → req.challenge_id ≡ id
      → later < now + lifetime cfg
      → (cfg.require_ocsp || req.check_revocation) ≡ false
      → verify (signed_text nonce req.signature) ≡ ok out
      → out.valid ≡ true
      → out.signers ≡ x ∷ xs
      → ((given : IssueResponse) × ((issue encode cfg m ask (some nonce) (some id) now).0
            ≡ ok given)
          × (given.challenge_id ≡ id)
          × (given.data_encoded ≡ encode nonce))
        × ((r : ConfirmResponse) × ((confirm validate verify cfg
                (issue encode cfg m ask (some nonce) (some id) now).1
                req
                later).0
              ≡ ok r)
            × (r.confirmed ≡ true)
            × (r.purpose ≡ ask.purpose)
            × (r.meta ≡ ask.meta)
            × (r.certificate ≡ some x.certificate))
  unfolding issue create confirm consume confirm_challenge confirm_signer
  issue-confirm encode m ask nonce id now later req out x xs same on_time unasked answered good s =
      let c = new_challenge cfg ask nonce id now in
      let found : lookup req.challenge_id (insert id c m) ≡ some c =
        ground (arith, lookup-insert id req.challenge_id c m, text_eq_refl id) in
      let given : IssueResponse = record {
        challenge_id = id;
        data_encoded = encode nonce;
        alg = codes "CMS-detached";
        expires_in = lifetime cfg / second;
        purpose = ask.purpose;
      } in
      ((given, refl, refl, refl), (confirmed_by c later x, ground arith, refl, refl, refl, refl))

  -- A flaw of `checkRevocation`: an answer that leaves the status undetermined, without a library
  -- error (the responder said "unknown"), confirms the challenge and is reported as not revoked,
  -- even where the revocation check is required.
  confirm-trusts_unknown :
      (m : Store) (req : ConfirmRequest) (now : ℕ) (c : Challenge) (x : Signer)
      (out : ValidateOutput)
      → lookup req.challenge_id m ≡ some c
      → c.used ≡ false
      → now < c.expires_at
      → IsSignedBy req c x
      → cfg.require_ocsp ≡ true
      → validate (ocsp_query x.certificate.pem) ≡ ok out
      → out.status.revoked ≡ false
      → out.status.determinate ≡ false
      → out.status.lib_error ≡ none
      → (r : ConfirmResponse) × ((confirm validate verify cfg m req now).0 ≡ ok r)
        × (r.confirmed ≡ true)
        × (r.revoked ≡ some false)
  unfolding confirm consume confirm_challenge confirm_signer check_revocation
  confirm-trusts_unknown m req now c x out found fresh on_time signed required answered clear
        unknown no_error =
      let (vout, others, verified, good, s) = signed in
      (record (confirmed_by c now x) { revoked = some false }, ground arith, refl, refl)
