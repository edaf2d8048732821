-- ===== src/Qr/Effects.antt =====
-- orchestrator.go: what one operation, run to its end, does to the store.
use qoltanba.Prelude.{
  ℕ, ◌≡◌, ◌≢◌, refl, sym, ◌∙◌, ap, subst, ◌⊎◌, inl, inr, true, false, none, some, [], Text, lookup,
  insert, insert-insert, IsUnique, Result, arith, Result-cases, Option-cases, Bool-cases,
}
use qoltanba.Qr.Session.{Status, terminal, Session, Error, Profiler, is_rejection}
use qoltanba.Qr.Store.{Store, get, consume, save, is_past}
use qoltanba.Qr.Orchestrator.{Orchestrator}
use qoltanba.Qr.Handlers.{
  Formats, Deliveries, submit_signature, poll_relay, get_view, fail, failed_with, verified_with,
}
use qoltanba.Qr.Submission.{
  consumed, used_up, Ending, stopped, rejected, accepted, submit_signature-Ending, complete_lem,
}

-- the session is used up, unless it is not verified
abbrev pub IsSettled : Session → Type 0
IsSettled s = (s.used ≡ true) ⊎ (s.status ≢ Status.verified)

-- keys are distinct, a session stands under its own id, and verified sessions are used up
pub record IsWell (m : Store) : Type 0 where
  pub unique : IsUnique m
  pub keyed : (k : Text) (s : Session) → lookup k m ≡ some s → s.id ≡ k
  pub settled : (k : Text) (s : Session) → lookup k m ≡ some s → IsSettled s

-- an operation changes one session at most, never one that is used and has ended; a session that is
-- used stays so
pub data Effect (m : Store) : Store → Type 0 where
  kept : Effect m m
  changed :
      (id : Text) (s s' : Session)
      → lookup id m ≡ some s
      → s'.id ≡ id
      → (s.used ≡ false) ⊎ (terminal s.status ≡ false)
      → (s.used ≡ true → s'.used ≡ true)
      → IsSettled s'
      → Effect m (insert id s' m)

module _ {D T : Type 0} (o : Orchestrator D T) (formats : Formats T) where
  -- a session that is consumed and then saved is as good as saved at once
  save_over :
      (m : Store) (id : Text) (s s' : Session)
      → s.id ≡ id
      → insert s.id s' (insert id (consumed o formats s) m) ≡ insert id s' m
  save_over m id s s' e =
      ap (λ k. insert k s' (insert id (consumed o formats s) m)) e
      ∙ insert-insert id (consumed o formats s) s' m

  saved-Effect :
      (m : Store) (id : Text) (s s' : Session)
      → IsWell m
      → lookup id m ≡ some s
      → s.used ≡ false
      → s'.id ≡ s.id
      → s'.used ≡ true
      → Effect m (insert s.id s' (insert id (consumed o formats s) m))
  saved-Effect m id s s' w found fresh named used =
      let e = w.keyed id s found in
      subst (Effect m) (sym (save_over m id s s' e))
        (changed id s s' found (named ∙ e) (inl fresh) (λ u. used) (inl used))

  Ending-Effect :
      (m : Store) (id body : Text) (now : ℕ) (s : Session)
      (r : Result Error (Unit {0}) × Store × Deliveries)
      → IsWell m
      → lookup id m ≡ some s
      → s.used ≡ false
      → Ending o formats m id body now s r
      → Effect m r.1
  Ending-Effect m id body now s r w found fresh (stopped e) =
      changed id s (consumed o formats s) found (w.keyed id s found) (inl fresh) (λ u. refl)
        (inl refl)
  Ending-Effect m id body now s r w found fresh (rejected e) =
      saved-Effect m id s (failed_with o (consumed o formats s) e) w found fresh refl refl
  Ending-Effect m id body now s r w found fresh (accepted impl sig raw _ _ _ _) =
      saved-Effect m id s (verified_with o formats (consumed o formats s) raw) w found fresh refl
        refl

  pub submit_signature-Effect :
      (m : Store) (id body : Text) (now : ℕ)
      → IsWell m
      → Effect m (submit_signature o formats m id body now).1
  submit_signature-Effect m id body now w = elim (submit_signature-Ending o formats m id body now) [
    | inl (unknown, e) ↦ same e
    | inr (s, found, inl (used, e)) ↦ same e
    | inr (s, found, inr (fresh, h)) ↦
        Ending-Effect m id body now s (submit_signature o formats m id body now) w found fresh h
  ]
    where
      same :
          {x : Result Error (Unit {0})}
          → submit_signature o formats m id body now ≡ (x, m, [])
          → Effect m (submit_signature o formats m id body now).1
      same e = subst (Effect m) (sym (ap (λ t. t.1) e)) kept

  poll_relay-Effect :
      (m : Store) (s : Session) (impl : Profiler D)
      → IsWell m
      → lookup s.id m ≡ some s
      → terminal s.status ≡ false
      → Effect m (poll_relay o formats m s impl).1
  unfolding poll_relay fail save consume
  poll_relay-Effect m s impl w found alive = elim (Result-cases (impl.poll s)) [
    | inr (e, failed) ↦ elim (Bool-cases (is_rejection e)) [
      | inl fatal ↦ to (insert s.id (failed_with o s e) m) (ground arith) (
          changed s.id s (failed_with o s e) found refl (inr alive) (λ u. u)
            (inr (λ v. ground arith)))
      | inr passing ↦ to m (ground arith) kept
    ]
    | inl (none, polled) ↦ to m (ground arith) kept
    | inl (some sig, polled) ↦ elim (Bool-cases s.used) [
      | inl used ↦ to m (ground arith) kept
      | inr fresh ↦
          elim (complete_lem o formats (used_up o formats m s.id s) (consumed o formats s) sig) [
            | inl (raw, checked, e) ↦
                end_with (verified_with o formats (consumed o formats s) raw) (ground arith) fresh
                  refl refl
            | inr (inl (e, h)) ↦
                end_with (failed_with o (consumed o formats s) e) (ground arith) fresh refl refl
            | inr (inr (e, h)) ↦ to (used_up o formats m s.id s) (ground arith) (
                changed s.id s (consumed o formats s) found refl (inl fresh) (λ u. refl) (inl refl))
          ]
    ]
  ]
    where
      to :
          (m' : Store)
          → (poll_relay o formats m s impl).1 ≡ m'
          → Effect m m'
          → Effect m (poll_relay o formats m s impl).1
      to m' e h = subst (Effect m) (sym e) h

      end_with :
          (s' : Session)
          → (poll_relay o formats m s impl).1 ≡ insert s.id s' (used_up o formats m s.id s)
          → s.used ≡ false
          → s'.id ≡ s.id
          → s'.used ≡ true
          → Effect m (poll_relay o formats m s impl).1
      end_with s' e fresh named used =
          to (insert s.id s' (used_up o formats m s.id s)) e
            (saved-Effect m s.id s s' w found fresh named used)

  pub get_view-Effect :
      (m : Store) (id : Text) (now : ℕ) → IsWell m → Effect m (get_view o formats m id now).1
  unfolding get_view get save
  get_view-Effect m id now w = elim (Option-cases (lookup id m)) [
    | inl unknown ↦ to m (ground arith) kept
    | inr (s, found) ↦ elim (Bool-cases (terminal s.status)) [
      | inl over ↦ to m (ground arith) kept
      | inr alive ↦ elim (Bool-cases (is_past now s)) [
        | inl past ↦
            let s' = record s { status = Status.expired } in
            to (insert s.id s' m) (ground arith) (
              changed s.id s s' (stored s found) refl (inr alive) (λ u. u)
                (inr (λ v. ground arith)))
        | inr open_still ↦ elim (Option-cases (lookup s.profile o.profiles)) [
          | inl unserved ↦ to m (ground arith) kept
          | inr (impl, served) ↦ elim (Bool-cases impl.self_hosted) [
            | inl hosted ↦ to m (ground arith) kept
            | inr relayed ↦
                let polled : (get_view o formats m id now).1 ≡ (poll_relay o formats m s impl).1 =
                  elim (Result-cases (poll_relay o formats m s impl).0) [
                    | inr (e, h) ↦ ground arith
                    | inl (none, h) ↦ ground arith
                    | inl (some s', h) ↦ ground arith
                  ] in
                to (poll_relay o formats m s impl).1 polled
                  (poll_relay-Effect m s impl w (stored s found) alive)
          ]
        ]
      ]
    ]
  ]
    where
      to :
          (m' : Store)
          → (get_view o formats m id now).1 ≡ m'
          → Effect m m'
          → Effect m (get_view o formats m id now).1
      to m' e h = subst (Effect m) (sym e) h

      stored : (s : Session) → lookup id m ≡ some s → lookup s.id m ≡ some s
      stored s found = ap (λ k. lookup k m) (w.keyed id s found) ∙ found
