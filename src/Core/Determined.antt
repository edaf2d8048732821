-- ===== src/Core/Determined.antt =====
-- internal/core/service.go, Validate: where a determined status comes from.
use qoltanba.Prelude.{
  any, subst, Bool, ◌||◌, ℕ, ◌≡◌, refl, sym, ◌⊎◌, inl, inr, if◌then◌else◌, true, false, not, ◌&&◌,
  Option, none, some, List, [], ◌∷◌, Text, is_empty, ok, ok-injective, arith, Result-cases,
  Option-cases, Bool-cases,
}
use qoltanba.Core.Contract.{
  ValidationMethod, CertEncoding, RevocationStatus, ValidateInput, ValidateOutput,
}
use qoltanba.Core.Provider.{CertStatus, ValidateResult}
use qoltanba.Core.Validation.{
  is_serial, Error, Validator, CrlEntry, reason_from_info, enrich_parsed, enrich_from_ocsp,
  enrich_entry, with_window, enrich_from_crl,
}
use qoltanba.Core.Validate.{
  is_revoked, Plan, is_ocsp, is_crl, is_unknown, check_time_of, cached_validate_output, plan_of,
  library_status, status_of, library_request, ask, look_up_or_ask, validate,
}
use qoltanba.OcspCache.Cache as OcspCache
use qoltanba.OcspCache.Cache.{Cache, Entry}

abbrev pub is_status_revoked : CertStatus → Bool
is_status_revoked CertStatus.good = false
is_status_revoked CertStatus.revoked = true
is_status_revoked CertStatus.unknown = false

status-cases :
    (s : CertStatus) → is_unknown s ≡ false → (s ≡ CertStatus.good) ⊎ (s ≡ CertStatus.revoked)
status-cases CertStatus.good e = inl refl
status-cases CertStatus.revoked e = inr refl
status-cases CertStatus.unknown e = absurd (ground arith)

module _ (v : Validator) where
  -- the responder that is asked
  abbrev pub responder_of : ValidateInput → Plan → Text
  responder_of i p =
      if is_ocsp p.method && is_empty i.responder_url
      then v.ocsp_url (v.to_der i.cert i.encoding)
      else i.responder_url

  -- the cache holds the answer of this responder about this certificate, and it is served
  abbrev pub IsCached : Option Cache → ValidateInput → ℕ → ℕ → ValidateOutput → Type 0
  IsCached c i at looked out =
      (cache : Cache) × (a : Entry) × (p : Plan) × (c ≡ some cache)
      × (plan_of v i (v.to_der i.cert i.encoding) ≡ ok p)
      × ((OcspCache.fetch v.digest cache (v.to_der i.cert i.encoding) (responder_of i p) looked).0
          ≡ some a)
      × (out ≡ cached_validate_output i p.method at a)

  -- an OCSP response that can be parsed and that says "revoked"
  abbrev pub is_revoked_in_ocsp : Text → Bool
  is_revoked_in_ocsp raw =
      not (is_empty raw) && elim (v.parse_ocsp raw) [ none ↦ false | some r ↦ r.revoked ]

  -- a CRL that can be parsed and that lists the certificate
  abbrev pub is_listed_in_crl : Text → Text → Bool
  is_listed_in_crl crl cert_der = elim (v.parse_crl (v.to_der crl CertEncoding.pem)) [
    | none ↦ false
    | some rl ↦ elim (v.parse_serial cert_der) [
      | none ↦ false
      | some serial ↦ any (λ e. is_serial v e.serial_number serial) rl.entries
    ]
  ]

  -- the evidence at hand shows a revocation: the response, or the CRL or its delta
  abbrev pub is_revoked_by_evidence : Plan → Text → Text → Bool
  is_revoked_by_evidence p response cert_der =
      if is_ocsp p.method
      then is_revoked_in_ocsp response
      else not (is_empty p.base)
        && (is_listed_in_crl p.base cert_der
            || (not (is_empty p.delta) && is_listed_in_crl p.delta cert_der))

  -- the library answered this check without an error, with good or revoked; the output says revoked
  -- exactly when the library or the evidence does
  abbrev pub IsAnswered : ValidateInput → ℕ → ValidateOutput → Type 0
  IsAnswered i at out =
      (p : Plan) × (path : Text) × (r : ValidateResult) × (plan_of v i (v.to_der i.cert i.encoding)
        ≡ ok p)
      × ((path ≡ responder_of i p) ⊎ (v.write_temp p.base ≡ ok path))
      × (v.validate_cert (library_request v i p (v.to_der i.cert i.encoding) path at) ≡ (r, none))
      × ((r.status ≡ CertStatus.good) ⊎ (r.status ≡ CertStatus.revoked))
      × (out.status.revoked ≡ (
          is_status_revoked r.status
          || is_revoked_by_evidence p r.ocsp_response (v.to_der i.cert i.encoding)))

  determinate-enrich_from_ocsp :
      (st : RevocationStatus) (raw info : Text)
      → (enrich_from_ocsp v st raw info).determinate ≡ st.determinate
  unfolding enrich_from_ocsp enrich_parsed
  determinate-enrich_from_ocsp st raw info = elim (Bool-cases (is_empty st.reason)) [
    | inl unnamed ↦ elim (Option-cases (v.reason_in info)) [
      | inl silent ↦ from_response (ground arith)
      | inr (reason, said) ↦ from_response (ground arith)
    ]
    | inr named ↦ from_response (ground arith)
  ]
    where
      from_response :
          (reason_from_info v st info).determinate ≡ st.determinate
          → (enrich_from_ocsp v st raw info).determinate ≡ st.determinate
      from_response e = elim (Bool-cases (is_empty raw)) [
        | inl empty ↦ ground arith
        | inr full ↦ elim (Option-cases (v.parse_ocsp raw)) [
          | inl garbled ↦ ground arith
          | inr (r, parsed) ↦ elim (Bool-cases r.revoked) [
            | inl revoked ↦ ground arith
            | inr good ↦ ground arith
          ]
        ]
      ]

  determinate-enrich_entry :
      (st : RevocationStatus) (serial : Option ℕ) (es : List CrlEntry)
      → (enrich_entry v st serial es).determinate ≡ st.determinate
  unfolding enrich_entry
  determinate-enrich_entry st serial [] = refl
  determinate-enrich_entry st serial (e ∷ es) =
      ground (arith, determinate-enrich_entry st serial es)

  determinate-enrich_from_crl :
      (st : RevocationStatus) (crl cert_der : Text)
      → (enrich_from_crl v st crl cert_der).determinate ≡ st.determinate
  unfolding enrich_from_crl
  determinate-enrich_from_crl st crl cert_der =
      elim (Option-cases (v.parse_crl (v.to_der crl CertEncoding.pem))) [
        | inl garbled ↦ ground arith
        | inr (rl, parsed) ↦ elim (Option-cases (v.parse_serial cert_der)) [
          | inl nameless ↦ ground arith
          | inr (serial, named) ↦
              ground (arith, determinate-enrich_entry (with_window v st rl) serial rl.entries)
        ]
      ]

  -- what the evidence adds to a status never makes it determined
  determinate-status_of :
      (p : Plan) (r : ValidateResult) (cert_der : Text) (at : ℕ)
      → (status_of v p r cert_der at).determinate ≡ not (is_unknown r.status)
  unfolding status_of
  determinate-status_of p r cert_der at =
      let st = library_status v p r at in
      let st' = enrich_from_crl v st p.base cert_der in
      ground (
        arith,
        determinate-enrich_from_ocsp st r.ocsp_response r.info,
        determinate-enrich_from_crl st p.base cert_der,
        determinate-enrich_from_crl st' p.delta cert_der,
      )

  revoked-enrich_from_ocsp :
      (st : RevocationStatus) (raw info : Text)
      → (enrich_from_ocsp v st raw info).revoked ≡ (st.revoked || is_revoked_in_ocsp raw)
  unfolding enrich_from_ocsp enrich_parsed
  revoked-enrich_from_ocsp st raw info = elim (Bool-cases (is_empty raw)) [
    | inl empty ↦ ground (arith, revoked-reason_from_info)
    | inr full ↦ elim (Option-cases (v.parse_ocsp raw)) [
      | inl garbled ↦ ground (arith, revoked-reason_from_info)
      | inr (r, parsed) ↦ elim (Bool-cases r.revoked) [
        | inl revoked ↦ ground arith
        | inr good ↦ ground arith
      ]
    ]
  ]
    where
      revoked-reason_from_info : (reason_from_info v st info).revoked ≡ st.revoked
      revoked-reason_from_info = elim (Bool-cases (is_empty st.reason)) [
        | inr named ↦ ground arith
        | inl unnamed ↦ elim (Option-cases (v.reason_in info)) [
          | inl silent ↦ ground arith
          | inr (reason, said) ↦ ground arith
        ]
      ]

  revoked-enrich_entry :
      (st : RevocationStatus) (serial : Option ℕ) (es : List CrlEntry)
      → (enrich_entry v st serial es).revoked
        ≡ (st.revoked || any (λ e. is_serial v e.serial_number serial) es)
  unfolding enrich_entry
  revoked-enrich_entry st serial [] = ground arith
  revoked-enrich_entry st serial (e ∷ es) = ground (arith, revoked-enrich_entry st serial es)

  revoked-enrich_from_crl :
      (st : RevocationStatus) (crl cert_der : Text)
      → (enrich_from_crl v st crl cert_der).revoked ≡ (st.revoked || is_listed_in_crl crl cert_der)
  unfolding enrich_from_crl
  revoked-enrich_from_crl st crl cert_der =
      elim (Option-cases (v.parse_crl (v.to_der crl CertEncoding.pem))) [
        | inl garbled ↦ ground arith
        | inr (rl, parsed) ↦ elim (Option-cases (v.parse_serial cert_der)) [
          | inl nameless ↦ ground arith
          | inr (serial, named) ↦
              ground (arith, revoked-enrich_entry (with_window v st rl) serial rl.entries)
        ]
      ]

  -- the status says revoked exactly when the library or the evidence does
  revoked-status_of :
      (p : Plan) (r : ValidateResult) (cert_der : Text) (at : ℕ)
      → (status_of v p r cert_der at).revoked
        ≡ (is_status_revoked r.status || is_revoked_by_evidence p r.ocsp_response cert_der)
  unfolding status_of
  revoked-status_of p r cert_der at =
      let st = library_status v p r at in
      let st' = enrich_from_crl v st p.base cert_der in
      let said : st.revoked ≡ is_status_revoked r.status = library_revoked r.status in
      let by_ocsp = revoked-enrich_from_ocsp st r.ocsp_response r.info in
      let by_base = revoked-enrich_from_crl st p.base cert_der in
      let by_delta = revoked-enrich_from_crl st' p.delta cert_der in
      elim (Bool-cases (is_ocsp p.method)) [
        | inl ocsp ↦ ground (arith, said, by_ocsp)
        | inr crl ↦ elim (Bool-cases (is_empty p.base)) [
          | inl bare ↦ ground (arith, said)
          | inr based ↦ elim (Bool-cases (not st'.revoked && not (is_empty p.delta))) [
            | inl overlaid ↦ ground (arith, said, by_base, by_delta)
            | inr settled ↦ ground (arith, said, by_base)
          ]
        ]
      ]
    where
      library_revoked : (s : CertStatus) → is_revoked s ≡ is_status_revoked s
      library_revoked CertStatus.good = refl
      library_revoked CertStatus.revoked = refl
      library_revoked CertStatus.unknown = refl

  ask_determinate :
      (c : Option Cache) (i : ValidateInput) (p : Plan) (path : Text) (at stored : ℕ)
      (out : ValidateOutput)
      → (ask v c i p (v.to_der i.cert i.encoding) path at stored).0 ≡ ok out
      → out.status.determinate ≡ true
      → plan_of v i (v.to_der i.cert i.encoding) ≡ ok p
      → (path ≡ responder_of i p) ⊎ (v.write_temp p.base ≡ ok path)
      → IsAnswered i at out
  unfolding ask
  ask_determinate c i p path at stored out h sure planned way =
      let q = library_request v i p (v.to_der i.cert i.encoding) path at in
      let r = (v.validate_cert q).0 in
      elim (Option-cases (v.validate_cert q).1) [
        | inl clean ↦ (
          p,
          path,
          r,
          planned,
          way,
          (λ j. (r, clean j)),
          status-cases r.status
              (ground (arith, determinate-status_of p r (v.to_der i.cert i.encoding) at)),
          ground (arith, revoked-status_of p r (v.to_der i.cert i.encoding) at),
        )
        | inr (e, failure) ↦ absurd (ground arith)
      ]

  look_up_or_ask_determinate :
      (c : Option Cache) (i : ValidateInput) (p : Plan) (path : Text) (at looked stored : ℕ)
      (out : ValidateOutput)
      → (look_up_or_ask v c i p (v.to_der i.cert i.encoding) path at looked stored).0 ≡ ok out
      → out.status.determinate ≡ true
      → plan_of v i (v.to_der i.cert i.encoding) ≡ ok p
      → path ≡ responder_of i p
      → IsCached c i at looked out ⊎ IsAnswered i at out
  unfolding look_up_or_ask
  look_up_or_ask_determinate c i p path at looked stored out h sure planned here =
      elim (Bool-cases (is_ocsp p.method)) [
        | inr other ↦ elim (Bool-cases (is_crl p.method && not (is_empty p.base))) [
          | inr direct ↦
              inr (ask_determinate c i p path at stored out (ground arith) sure planned (inl here))
          | inl from_file ↦ elim (Result-cases (v.write_temp p.base)) [
            | inr (e, failed) ↦ absurd (ground arith)
            | inl (file, written) ↦
                inr (
                  ask_determinate c i p file at stored out (ground arith) sure planned
                    (inr written))
          ]
        ]
        | inl ocsp ↦
            let apart : is_crl p.method ≡ false = not_crl p.method ocsp in
            elim (Option-cases c) [
              | inl uncached ↦
                  inr (
                    ask_determinate c i p path at stored out (ground arith) sure planned (inl here))
              | inr (cache, cached) ↦
                  let found =
                    OcspCache.fetch v.digest cache (v.to_der i.cert i.encoding) path looked in
                  elim (Option-cases found.0) [
                    | inl miss ↦ inr (
                        ask_determinate (some found.1) i p path at stored out (ground arith) sure
                          planned (inl here))
                    | inr (a, hit) ↦
                        let served : cached_validate_output i p.method at a ≡ out =
                          ok-injective {E = Error} (cached_validate_output i p.method at a) out
                            (ground arith) in
                        inl (
                          cache,
                          a,
                          p,
                          cached,
                          planned,
                          subst
                              (λ t.
                                (OcspCache.fetch v.digest cache (v.to_der i.cert i.encoding) t
                                  looked).0
                                ≡ some a)
                              here hit,
                          sym served,
                        )
                  ]
            ]
      ]
    where
      not_crl : (m : ValidationMethod) → is_ocsp m ≡ true → is_crl m ≡ false
      not_crl ValidationMethod.ocsp e = refl
      not_crl ValidationMethod.crl e = absurd (ground arith)
      not_crl ValidationMethod.unset e = absurd (ground arith)

  -- Where an answer of `Validate` says that the status is determined, for whatever method, CRL source
  -- and fail policy, the certificate was checked by the plan that those give: either the cache held an
  -- answer of the responder about this certificate, and it is served (whatever the library had said
  -- when it was stored); or the library answered this check without an error, with good or revoked,
  -- and then the output says revoked exactly when the library does, or the OCSP response, the CRL or
  -- its delta shows it.
  pub validate_determinate :
      (c : Option Cache) (i : ValidateInput) (now looked stored : ℕ) (out : ValidateOutput)
      → (validate v c i now looked stored).0 ≡ ok out
      → out.status.determinate ≡ true
      → IsCached c i (check_time_of i now) looked out ⊎ IsAnswered i (check_time_of i now) out
  unfolding validate
  validate_determinate c i now looked stored out h sure =
      elim (Result-cases (plan_of v i (v.to_der i.cert i.encoding))) [
        | inr (e, refused) ↦ absurd (ground arith)
        | inl (p, planned) ↦
            let path : Text =
              if is_ocsp p.method && is_empty i.responder_url
              then v.ocsp_url (v.to_der i.cert i.encoding)
              else i.responder_url in
            elim (Bool-cases (is_ocsp p.method && is_empty path)) [
              | inl nobody ↦ absurd (ground arith)
              | inr somebody ↦
                  look_up_or_ask_determinate c i p path (check_time_of i now) looked stored out
                    (ground arith) sure planned refl
            ]
      ]
