-- ===== src/Qr/Creation.antt =====
-- orchestrator.go: the session that `Create` starts.
use qoltanba.Prelude.{
  ◌*◌, ◌^◌, ◌≤◌, ◌<◌, ltb, second, seconds, seconds-short, after, ℕ, ◌+◌, ◌≡◌, ◌≢◌, refl, subst,
  ◌⊎◌, inl, inr, if◌then◌else◌, true, false, ◌&&◌, Text, is_empty, insert, Result, ok, err,
  ok-injective, arith, Result-cases, Bool-cases,
}
use qoltanba.Core.Contract.{SignatureFormat}
use qoltanba.Qr.Session.{Mode, Status, Session, Error, no_data, Profiler, PublicUrls}
use qoltanba.Qr.Store.{Store, create}
use qoltanba.Qr.Orchestrator.{
  Config, Orchestrator, CreateRequest, CreateResponse, choose, lifetime, new_session, give_data,
}
use qoltanba.Qr.Handlers.{app_url, created, stamp, create_session, prepare_session}

-- a login has the server's nonce to sign as a detached CMS; any other session has the caller's data
abbrev pub HasData : Session → CreateRequest → Result Error Text → Type 0
HasData s req nonce =
    ((s.mode ≡ Mode.auth)
      × (ok s.content ≡ nonce)
      × (s.detached ≡ true)
      × (s.format ≡ SignatureFormat.cms))
    ⊎ ((s.mode ≢ Mode.auth)
        × (s.content ≡ req.content)
        × ((is_empty s.content && is_empty s.documents) ≡ false))

-- the end of a session that lives for the configured time, or for the seconds that are asked for where
-- they are less than 2^63 nanoseconds; a longer time wraps around
abbrev pub HasDeadline : Config → CreateRequest → ℕ → ℕ → Type 0
HasDeadline cfg req now expires_at =
    ((req.ttl_seconds ≡ 0) × (expires_at ≡ now + cfg.ttl))
    ⊎ ((0 < req.ttl_seconds)
        × (req.ttl_seconds * second < 2 ^ 63)
        × (expires_at ≡ now + req.ttl_seconds * second))
    ⊎ ((2 ^ 63 ≤ req.ttl_seconds * second) × (expires_at ≡ after now (seconds req.ttl_seconds)))

lifetime-HasDeadline :
    (cfg : Config) (req : CreateRequest) (now : ℕ)
    → HasDeadline cfg req now (after now (lifetime cfg req))
lifetime-HasDeadline cfg req now = elim (Bool-cases (ltb 0 req.ttl_seconds)) [
  | inr unset ↦ inl (ground arith, ground arith)
  | inl set ↦ elim (Bool-cases (ltb (req.ttl_seconds * second) (2 ^ 63))) [
    | inl short ↦ inr (
        inl (
          ground arith,
          ground arith,
          ground (arith, seconds-short req.ttl_seconds (ground arith)),
        ))
    | inr long ↦ inr (inr (ground arith, ground arith))
  ]
]

-- the session is unused and pending, with its end, and has something to sign
abbrev pub IsReady : Config → CreateRequest → Text → Result Error Text → ℕ → Session → Type 0
IsReady cfg req id nonce now s =
    (s.id ≡ id)
    × (s.status ≡ Status.pending)
    × (s.used ≡ false)
    × HasDeadline cfg req now s.expires_at
    × HasData s req nonce

-- the caller's data on the new session
abbrev with_own : Config → CreateRequest → Mode → Text → ℕ → Session
with_own cfg req mode id now = record (new_session cfg req mode id now) { content = req.content }

own_lem :
    (cfg : Config) (req : CreateRequest) (mode : Mode) (id : Text) (nonce : Result Error Text)
    (now : ℕ) (s : Session)
    → ◌≡◌ {A = Result Error Session}
        (if is_empty req.content && is_empty req.documents
          then err no_data
          else ok (with_own cfg req mode id now))
        (ok s)
    → mode ≢ Mode.auth
    → IsReady cfg req id nonce now s
own_lem cfg req mode id nonce now s h apart =
    elim (Bool-cases (is_empty req.content && is_empty req.documents)) [
      | inl missing ↦ absurd (ground arith)
      | inr given ↦
          subst (IsReady cfg req id nonce now)
            (ok-injective {E = Error} (with_own cfg req mode id now) s (ground arith))
            (refl, refl, refl, lifetime-HasDeadline cfg req now, inr (apart, refl, given))
    ]

give_data_lem :
    (cfg : Config) (req : CreateRequest) (mode : Mode) (id : Text) (nonce : Result Error Text)
    (now : ℕ) (s : Session)
    → give_data req (new_session cfg req mode id now) nonce ≡ ok s
    → IsReady cfg req id nonce now s
unfolding give_data
give_data_lem cfg req Mode.auth id (err e) now s h = absurd (ground arith)
give_data_lem cfg req Mode.auth id (ok n) now s h =
    let s' = record (new_session cfg req Mode.auth id now) {
      content = n;
      detached = true;
      format = SignatureFormat.cms;
    } in
    subst (IsReady cfg req id (ok n) now) (ok-injective {E = Error} s' s h)
      (refl, refl, refl, lifetime-HasDeadline cfg req now, inl (refl, refl, refl, refl))
give_data_lem cfg req Mode.sign id nonce now s h =
    own_lem cfg req Mode.sign id nonce now s h (λ e. ground arith)
give_data_lem cfg req Mode.unset id nonce now s h =
    own_lem cfg req Mode.unset id nonce now s h (λ e. ground arith)
give_data_lem cfg req (Mode.other x) id nonce now s h =
    own_lem cfg req (Mode.other x) id nonce now s h (λ e. ground arith)

module _ {D T : Type 0} (o : Orchestrator D T) (encode_qr : Text → Result Error Text) where
  prepare_session_lem :
      (req : CreateRequest) (public_base : Text) (chosen : Mode × Profiler D) (id : Text)
      (nonce : Result Error Text) (now : ℕ) (answer : CreateResponse) (s : Session)
      → prepare_session o encode_qr req public_base chosen id nonce now ≡ ok (answer, s)
      → IsReady o.cfg req id nonce now s × (answer.session_id ≡ id)
  unfolding prepare_session
  prepare_session_lem req public_base (mode, impl) id nonce now answer s h =
      elim (Result-cases (give_data req (new_session o.cfg req mode id now) nonce)) [
        | inr (e, lacking) ↦ absurd (ground arith)
        | inl (s', given) ↦
            let urls : PublicUrls = record {
              data_url = app_url impl public_base id;
              sign_url = app_url impl public_base id;
            } in
            elim (Result-cases (impl.prepare s' urls)) [
              | inr (e, failed) ↦ absurd (ground arith)
              | inl (p, prepared) ↦ elim (Result-cases (encode_qr p.artifacts.payload)) [
                | inr (e, failed) ↦ absurd (ground arith)
                | inl (qr, drawn) ↦
                    let ready = give_data_lem o.cfg req mode id nonce now s' given in
                    let given_back : CreateResponse × Session =
                      (created s' (lifetime o.cfg req) p qr, stamp s' p) in
                    let made : given_back ≡ (answer, s) =
                      ok-injective {E = Error} given_back (answer, s) (ground arith) in
                    subst (λ t. IsReady o.cfg req id nonce now t.1 × (t.0.session_id ≡ id)) made
                      (ready, ready.0)
              ]
            ]
      ]

  -- What `Create` does, on every branch: it fails and stores nothing, or it answers with the id that
  -- was drawn and stores under it a session that is unused and pending, ends after the
  -- configured time or the seconds that were asked for (which wrap around from 2^63 nanoseconds on),
  -- and has something to sign, which for a login is the server's nonce as a detached CMS.
  pub create_session_lem :
      (m : Store) (req : CreateRequest) (public_base : Text) (fresh nonce : Result Error Text)
      (now : ℕ)
      → ((e : Error) × (create_session o encode_qr m req public_base fresh nonce now ≡ (err e, m)))
        ⊎ ((id : Text) × (answer : CreateResponse) × (s : Session) × (create_session o encode_qr m
                req public_base fresh nonce now
              ≡ (ok answer, insert id s m))
            × (fresh ≡ ok id)
            × (answer.session_id ≡ id)
            × IsReady o.cfg req id nonce now s)
  unfolding create_session create
  create_session_lem m req public_base fresh nonce now = elim (Result-cases (choose o req)) [
    | inr (e, refused) ↦ inl (e, ground arith)
    | inl (chosen, fits) ↦ elim (Result-cases fresh) [
      | inr (e, failed) ↦ inl (e, ground arith)
      | inl (id, drawn) ↦
          elim (Result-cases (prepare_session o encode_qr req public_base chosen id nonce now)) [
            | inr (e, refused) ↦ inl (e, ground arith)
            | inl ((answer, s), made) ↦
                let (ready, named) =
                  prepare_session_lem req public_base chosen id nonce now answer s made in
                inr (id, answer, s, ground (arith, ready.0), drawn, named, ready)
          ]
    ]
  ]
