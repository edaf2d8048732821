-- ===== src/Jobs/Submission.antt =====
-- manager.go: submission, plain and idempotent.
use qoltanba.Prelude.{
  ℕ, ◌≤◌, ◌≡◌, ap, Bool, true, false, none, some, [], ◌∷◌, ◌++◌, length, length-append, Text,
  text_eq_refl, is_empty, Map, lookup, insert, delete, lookup-insert, ok, err, arith, Option-cases,
  Result-cases, inl, inr, ◌⊎◌,
}
use qoltanba.Jobs.Job.{Job, View, view, Error}
use qoltanba.Jobs.Store.{create, get, remove}
use qoltanba.Jobs.Manager.{
  IdemRef, Manager, new_job, enqueue, submit, submit_idempotent, submit_fresh, remember_key,
  make_room,
}

delete-insert {ℓ} :
    {V : Type ℓ} (k : Text) (v : V) (m : Map V) → lookup k m ≡ none → delete k (insert k v m) ≡ m
unfolding lookup insert delete
delete-insert k v [] h = ground (arith, text_eq_refl k)
delete-insert k v ((j, w) ∷ m) h = ground (arith, delete-insert k v m)

-- a submission that is refused leaves the manager exactly as it was
submit-restores :
    (valid_op : Text → Bool) (m : Manager) (id op request url : Text) (now : ℕ) (e : Error)
    (m' : Manager)
    → submit valid_op m id op request url now ≡ (err e, m')
    → m' ≡ m
unfolding submit create enqueue remove
submit-restores valid_op m id op request url now e m' h =
    ground (arith, delete-insert id (new_job id op request url now) m.store)

-- a submission that is accepted stores a queued job and puts it at the end of the queue
submit_accepted :
    (valid_op : Text → Bool) (m : Manager) (id op request url : Text) (now : ℕ) (v : View)
    (m' : Manager)
    → submit valid_op m id op request url now ≡ (ok v, m')
    → (valid_op op ≡ true)
      × (lookup id m.store ≡ none)
      × (lookup id m'.store ≡ some (new_job id op request url now))
      × (v ≡ view (new_job id op request url now))
      × (m'.queue ≡ m.queue ++ id ∷ [])
      × (length m'.queue ≤ m.cfg.queue_size)
unfolding submit create enqueue
submit_accepted valid_op m id op request url now v m' h =
    let j = new_job id op request url now in
    ground (arith, lookup-insert id id j m.store, text_eq_refl id, length-append m.queue (id ∷ []))

-- What a submission does, on every branch: it is refused, for whatever reason, and leaves the manager
-- exactly as it was; or it names a supported operation and a new id, stores the job as queued with
-- its request, returns its view, and puts the id at the end of the queue, which stays within its
-- capacity.
pub submit_outcome :
    (valid_op : Text → Bool) (m : Manager) (id op request url : Text) (now : ℕ)
    → ((e : Error) × (submit valid_op m id op request url now ≡ (err e, m)))
      ⊎ ((m' : Manager) × (submit valid_op m id op request url now
            ≡ (ok (view (new_job id op request url now)), m'))
          × (valid_op op ≡ true)
          × (lookup id m.store ≡ none)
          × (lookup id m'.store ≡ some (new_job id op request url now))
          × (m'.queue ≡ m.queue ++ id ∷ [])
          × (length m'.queue ≤ m.cfg.queue_size))
submit_outcome valid_op m id op request url now =
    let s = submit valid_op m id op request url now in
    elim (Result-cases s.0) [
      | inr (e, refused) ↦
          let same = submit-restores valid_op m id op request url now e s.1 (ground arith) in
          inl (e, ground arith)
      | inl (v, done) ↦
          let (supported, new, stored, viewed, queue, fits) =
            submit_accepted valid_op m id op request url now v s.1 (ground arith) in
          inr (s.1, ground arith, supported, new, stored, queue, fits)
    ]

lookup-remember_key :
    (keys : Map IdemRef) (key id : Text) (now : ℕ)
    → lookup key (remember_key keys key id now) ≡ some (record { id = id; at = now })
unfolding remember_key
lookup-remember_key keys key id now =
    let ref : IdemRef = record { id = id; at = now } in
    ground (arith, lookup-insert {0} {V = IdemRef} key key ref (make_room keys), text_eq_refl key)

submit_fresh-known :
    (valid_op : Text → Bool) (m : Manager) (id op request url key : Text) (now : ℕ) (v : View)
    (m' : Manager)
    → submit_fresh valid_op m id op request url key now ≡ (ok v, m')
    → (ref : IdemRef) × (j : Job) × (lookup key m'.idem_keys ≡ some ref)
      × (lookup ref.id m'.store ≡ some j)
      × (view j ≡ v)
unfolding submit_fresh view
submit_fresh-known valid_op m id op request url key now v m' h =
    let s = submit valid_op m id op request url now in
    elim (Result-cases s.0) [
      | inr (e, refused) ↦ absurd (ground arith)
      | inl (w, done) ↦
          let (supported, new, stored, viewed, queue, fits) =
            submit_accepted valid_op m id op request url now w s.1 (ground arith) in
          (
            record { id = w.id; at = now },
            new_job id op request url now,
            ground (arith, lookup-remember_key s.1.idem_keys key w.id now),
            ground arith,
            ground arith,
          )
    ]

-- Directly after a submission under a key that is not empty has succeeded, with no other call of the
-- manager in between, one more under that key, whatever its request and its time, returns the same
-- view and changes nothing.
pub submit_idempotent_repeat :
    (valid_op : Text → Bool) (m : Manager) (id op request url key : Text) (now : ℕ) (v : View)
    (m' : Manager) (id' op' request' url' : Text) (now' : ℕ)
    → is_empty key ≡ false
    → submit_idempotent valid_op m id op request url key now ≡ (ok v, m')
    → submit_idempotent valid_op m' id' op' request' url' key now' ≡ (ok v, m')
unfolding submit_idempotent get
submit_idempotent_repeat valid_op m id op request url key now v m' id' op' request' url' now' k h =
    elim (Option-cases (lookup key m.idem_keys)) [
      | inl new ↦
          let (ref, j, known, stored, viewed) =
            submit_fresh-known valid_op m id op request url key now v m' (ground arith) in
          ground arith
      | inr (ref, known) ↦ elim (Option-cases (lookup ref.id m.store)) [
        | inr (j, stored) ↦ ground arith
        | inl gone ↦
            let (ref', j, known', stored, viewed) =
              submit_fresh-known valid_op (record m { idem_keys = delete key m.idem_keys }) id op
                request url key now v m' (ground arith) in
            ground arith
      ]
    ]

-- a submission stores the new job, or leaves the store as it was
pub store-submit :
    (valid_op : Text → Bool) (m : Manager) (id op request url : Text) (now : ℕ)
    → ((submit valid_op m id op request url now).1.store ≡ m.store)
      ⊎ ((submit valid_op m id op request url now).1.store
          ≡ insert id (new_job id op request url now) m.store)
unfolding submit create enqueue
store-submit valid_op m id op request url now =
    let s = submit valid_op m id op request url now in
    elim (Result-cases s.0) [
      | inr (e, refused) ↦ inl (
          ap (λ t. t.store) (submit-restores valid_op m id op request url now e s.1 (ground arith)))
      | inl (v, done) ↦ inr (ground arith)
    ]
