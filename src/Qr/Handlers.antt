-- ===== src/Qr/Handlers.antt =====
-- orchestrator.go: the operations of the orchestrator. `encode_qr` stands for encodeQRBase64. The clock
-- and the random values are arguments. An operation returns its answer, the store that it leaves, and the
-- views that it hands to the webhook.
use qoltanba.Prelude.{
  ℤ, whole_seconds, ℕ, if◌then◌else◌, Bool, true, false, not, ◌||◌, Option, none, some, List, [],
  ◌∷◌, ◌++◌, Text, codes, is_empty, has_prefix, lookup, Result, ok, err, ◌>>=◌,
}
use qoltanba.Core.Contract.{
  ValidationMethod, CertEncoding, Claims, Signer, VerifyInput, VerifyOutput, ValidateInput,
}
use qoltanba.Qr.Session.{
  Mode, Status, terminal, Session, View, view, SignResult, Error, session_expired,
  signature_rejected, cert_revoked, unsupported_profile, app_only, panicked, is_panic, is_rejection,
  explain_error, Prepared, Profiler,
}
use qoltanba.Qr.Store.{Store, create, get, consume, save, is_past}
use qoltanba.Qr.Orchestrator.{
  CreateRequest, CreateResponse, Orchestrator, choose, lifetime, new_session, give_data, trim_slash,
}

abbrev pub Deliveries : Type 0
Deliveries = List (Text × View)

-- the URL that the app is sent to
abbrev pub app_url : {D : Type 0} → Profiler D → Text → Text → Text
app_url impl public_base id =
    if impl.self_hosted then trim_slash public_base ++ codes "/qr/a/" ++ id else []

abbrev pub stamp : Session → Prepared → Session
stamp s p = record s { relay_id = p.relay_id; relay_sign_url = p.relay_sign_url }

abbrev pub created : Session → ℤ → Prepared → Text → CreateResponse
created s ttl p qr = record {
  session_id = s.id;
  status = Status.pending;
  qr = qr;
  payload = p.artifacts.payload;
  egov_mobile_link = p.artifacts.egov_mobile_link;
  egov_business_link = p.artifacts.egov_business_link;
  data_url = p.artifacts.data_url;
  sign_url = p.artifacts.sign_url;
  expires_in = whole_seconds ttl;
  state = s.state;
}

-- what `verify` asks the domain about a signature
abbrev pub signature_query : Bool → Session → Text → VerifyInput
signature_query pem s sig = record {
  format = s.format;
  signature = sig;
  content = s.content;
  detached = s.detached;
  input_pem = pem;
  check_cert_time = true;
  extract_claims = true;
  report = false;
  revocation_check = none;
  revocation_method = ValidationMethod.unset;
  responder_url = [];
  trusted_certs = [];
}

abbrev pub ocsp_query : Signer → ValidateInput
ocsp_query x = record {
  cert = x.certificate.pem;
  method = ValidationMethod.ocsp;
  check_time = none;
  encoding = CertEncoding.pem;
  want_ocsp = true;
  responder_url = [];
  crl_bytes = [];
  trusted_certs = [];
}

-- bytes.TrimSpace, and json.Marshal of the two kinds of result
pub record Formats (T : Type 0) : Type 0 where
  pub trim_space : Text → Text
  pub encode_tokens : T → Result Error Text
  pub encode_result : SignResult → Result Error Text

-- `looksPEM`
unfoldable pub looks_pem : (Text → Text) → Text → Bool
unfolding has_prefix
looks_pem trim_space sig = has_prefix (trim_space sig) (codes "-----BEGIN")

module _ {D T : Type 0} (o : Orchestrator D T) where
  -- what `Create` stores and answers, once the session's id is drawn
  unfoldable pub prepare_session :
      (Text → Result Error Text)
      → CreateRequest
      → Text
      → Mode × Profiler D
      → Text
      → Result Error Text
      → ℕ
      → Result Error (CreateResponse × Session)
  unfolding give_data
  prepare_session encode_qr req public_base (mode, impl) id nonce now = do
    s ← give_data req (new_session o.cfg req mode id now) nonce
    let url = app_url impl public_base id
    p ← impl.prepare s (record { data_url = url; sign_url = url })
    qr ← encode_qr p.artifacts.payload
    ok (created s (lifetime o.cfg req) p qr, stamp s p)

  -- `Orchestrator.Create`
  unfoldable pub create_session :
      (Text → Result Error Text)
      → Store
      → CreateRequest
      → Text
      → Result Error Text
      → Result Error Text
      → ℕ
      → Result Error CreateResponse × Store
  unfolding choose prepare_session create
  create_session encode_qr m req public_base fresh nonce now =
      let made : Result Error (CreateResponse × Session) = (do
        chosen ← choose o req
        id ← fresh
        prepare_session encode_qr req public_base chosen id nonce now) in
      elim made [ err e ↦ (err e, m) | ok (answer, s) ↦ (ok answer, create m s) ]

  -- `Orchestrator.AppData`
  unfoldable pub app_data : Store → Text → ℕ → Result Error D
  unfolding get is_past lookup
  app_data m id now = elim (get m id) [
    | err e ↦ err e
    | ok s ↦ if is_past now s then err session_expired else elim (lookup s.profile o.profiles) [
      | none ↦ err unsupported_profile
      | some impl ↦ if not impl.self_hosted then err app_only else impl.app_data s
    ]
  ]

  -- `fireWebhook`
  unfoldable pub fire_webhook : Session → Deliveries
  unfolding view
  fire_webhook s =
      if not o.has_webhook || is_empty s.callback_url then [] else (s.callback_url, view s) ∷ []

  abbrev pub failed_with : Session → Error → Session
  failed_with s e = record s { status = Status.failed; error = some (explain_error e) }

  -- `fail`, whose answer is the error that it is given
  unfoldable pub fail : Store → Session → Error → Result Error (Unit {0}) × Store × Deliveries
  unfolding save fire_webhook
  fail m s e = let s' = failed_with s e in (err e, save m s', fire_webhook s')

  -- the revocation check of `verify`
  unfoldable pub check_revocation : Signer → Result Error (Unit {0})
  check_revocation x =
      if o.cfg.require_ocsp
      then elim (o.validator (ocsp_query x)) [
        | err e ↦ err e
        | ok out ↦ if out.status.revoked then err cert_revoked else ok tt
      ]
      else ok tt

  module _ (formats : Formats T) where
    -- the end of `verify`: the result for the mode
    unfoldable pub result_for : Session → Text → VerifyOutput → Signer → Claims → Result Error Text
    result_for s sig out x claims =
        let signed = formats.encode_result (record {
          signature = sig;
          valid = out.valid;
          signers = out.signers;
          claims = x.claims;
        }) in
        elim s.mode [
          | Mode.auth ↦ elim o.issuer [
            | none ↦ err panicked
            | some issue_tokens ↦ do
              t ← issue_tokens claims s.client_id s.client_nonce
              formats.encode_tokens t
          ]
          | Mode.sign ↦ signed
          | Mode.unset ↦ signed
          | Mode.other _ ↦ signed
        ]

    -- `Orchestrator.verify`
    unfoldable pub verify : Session → Text → Result Error Text
    unfolding looks_pem check_revocation result_for
    verify s sig = elim (o.verifier (signature_query (looks_pem formats.trim_space sig) s sig)) [
      | err e ↦ err e
      | ok out ↦ elim out.signers [
        | [] ↦ err signature_rejected
        | x ∷ xs ↦ elim x.claims [
          | none ↦ err signature_rejected
          | some claims ↦
              if not out.valid || is_empty claims.sub
              then err signature_rejected
              else elim (check_revocation x) [
                | err e ↦ err e
                | ok _ ↦ result_for s sig out x claims
              ]
        ]
      ]
    ]

    abbrev pub verified_with : Session → Text → Session
    verified_with s raw = record s { status = Status.verified; result = raw }

    -- `complete`; a panic leaves everything as it is
    unfoldable pub complete : Store → Session → Text → Result Error (Unit {0}) × Store × Deliveries
    unfolding verify fail save fire_webhook
    complete m s sig = elim (verify s sig) [
      | err e ↦ if is_panic e then (err e, m, []) else fail m s e
      | ok raw ↦ let s' = verified_with s raw in (ok tt, save m s', fire_webhook s')
    ]

    -- `Orchestrator.SubmitSignature`
    unfoldable pub submit_signature :
        Store → Text → Text → ℕ → Result Error (Unit {0}) × Store × Deliveries
    unfolding consume is_past lookup fail complete
    submit_signature m id body now =
        let (got, m') = consume m id in
        elim got [
          | err e ↦ (err e, m', [])
          | ok s ↦
              if is_past now s
              then (err session_expired, m', [])
              else elim (lookup s.profile o.profiles) [
                | none ↦ (err unsupported_profile, m', [])
                | some impl ↦ elim (impl.parse_app_signature s body) [
                  | err e ↦ fail m' s e
                  | ok sig ↦ complete m' s sig
                ]
              ]
        ]

    -- the session that is stored now, for a poll that has ended; a session that is gone is nil
    abbrev stored : Store → Text → Option Session
    stored m id = elim (get m id) [ err _ ↦ none | ok s ↦ some s ]

    -- `pollRelay`
    unfoldable pub poll_relay :
        Store → Session → Profiler D → Result Error (Option Session) × Store × Deliveries
    unfolding get consume fail complete
    poll_relay m s impl = elim (impl.poll s) [
      | err e ↦
          if is_rejection e
          then (let (_, m', sent) = fail m s e in (ok (stored m' s.id), m', sent))
          else (ok none, m, [])
      | ok none ↦ (ok none, m, [])
      | ok (some sig) ↦
          let (got, m') = consume m s.id in
          elim got [
            | err e ↦ (ok (stored m' s.id), m', [])
            | ok s' ↦
                let (r, m'', sent) = complete m' s' sig in
                elim r [
                  | err e ↦
                      if is_panic e then (err e, m'', sent) else (ok (stored m'' s.id), m'', sent)
                  | ok _ ↦ (ok (stored m'' s.id), m'', sent)
                ]
          ]
    ]

    -- `Orchestrator.Get`
    unfoldable pub get_view : Store → Text → ℕ → Result Error View × Store × Deliveries
    unfolding get terminal is_past save view lookup poll_relay
    get_view m id now = elim (get m id) [
      | err e ↦ (err e, m, [])
      | ok s ↦
          let polled : Result Error View × Store × Deliveries = elim (lookup s.profile o.profiles) [
            | none ↦ (ok (view s), m, [])
            | some impl ↦
                if impl.self_hosted
                then (ok (view s), m, [])
                else (let (updated, m', sent) = poll_relay m s impl in
                    elim updated [
                      | err e ↦ (err e, m', sent)
                      | ok none ↦ (ok (view s), m', sent)
                      | ok (some s') ↦ (ok (view s'), m', sent)
                    ])
          ] in
          if terminal s.status
          then (ok (view s), m, [])
          else if is_past now s
          then (let s' = record s { status = Status.expired } in (ok (view s'), save m s', []))
          else polled
    ]
