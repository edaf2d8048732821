-- ===== src/Jobs/Lifecycle.antt =====
-- manager.go: a run from the queue to its end, and the interleavings of workers, cancellations and
-- submissions.
pub mod World
use qoltanba.Prelude.{
  ℕ, ◌+◌, ◌≤◌, ◌<◌, ◌≡◌, ◌≢◌, refl, sym, ◌∙◌, ap, ◌↔◌, ◌⊎◌, inl, inr, ltb, if◌then◌else◌, Bool,
  true, false, not, ◌&&◌, Option, none, some, List, [], ◌∷◌, ◌++◌, length, Text, text_eq,
  text_eq_iff, text_eq_refl, is_empty, Map, lookup, insert, delete, lookup-insert, IsUnique, Result,
  ok, err, arith, Bool-cases, Option-cases,
}
use qoltanba.Jobs.Job.{
  Status, queued, running, succeeded, failed, canceled, terminal, Job, View, view, Error, busy,
}
use qoltanba.Jobs.Store.{Store, create, get, save, remove, is_queued}
use qoltanba.Jobs.Manager.{
  Manager, set_expiry, fire_webhook, new_job, enqueue, submit, cancel, Outcome, output, failure,
  context_canceled, pick_up, start, settle, ended, finish, run, submit_idempotent, submit_fresh,
}

-- the job is over: its payload is scrubbed and its end is stamped
abbrev pub IsOver : Job → Type 0
IsOver j = (terminal j.status ≡ true) × (j.request ≡ []) × (j.finished_at ≢ none)

abbrev pub final_status : Outcome → Status
final_status (output (some _)) = succeeded
final_status (output none) = failed
final_status (failure _) = failed
final_status context_canceled = running

abbrev pub is_final : Outcome → Bool
is_final context_canceled = false
is_final (output _) = true
is_final (failure _) = true

pub store-fire_webhook : (m : Manager) (j : Job) → (fire_webhook m j).store ≡ m.store
unfolding fire_webhook
store-fire_webhook m j = ground arith

pub ended-IsOver :
    (ttl : ℕ) (j : Job) (out : Outcome) (now : ℕ)
    → is_final out ≡ true
    → IsOver (ended ttl j out now)
      × ((ended ttl j out now).status ≡ final_status out)
      × ((ended ttl j out now).id ≡ j.id)
unfolding ended terminal
ended-IsOver ttl j (output (some raw)) now h = ground arith
ended-IsOver ttl j (output none) now h = ground arith
ended-IsOver ttl j (failure e) now h = ground arith
ended-IsOver ttl j context_canceled now h = absurd (ground arith)

pub store-finish :
    (m : Manager) (j : Job) (out : Outcome) (now : ℕ)
    → is_final out ≡ true
    → (finish m j out now).store
      ≡ insert (ended m.cfg.ttl j out now).id (ended m.cfg.ttl j out now) m.store
unfolding finish
store-finish m j context_canceled now h = absurd (ground arith)
store-finish m j out now h =
    store-fire_webhook
      (record m {
        store = insert (ended m.cfg.ttl j out now).id (ended m.cfg.ttl j out now) m.store;
      })
      (ended m.cfg.ttl j out now)

-- A queued job, stored under its id, that is run with nothing in between, and whose executor gives an output or an error,
-- ends as succeeded (an output that can be encoded) or failed (all else), with its payload scrubbed
-- and its end stamped, and no other job of the store changes.
pub run-IsOver :
    (m : Manager) (id : Text) (j : Job) (out : Outcome) (t u : ℕ)
    → lookup id m.store ≡ some j
    → j.id ≡ id
    → j.status ≡ queued
    → is_final out ≡ true
    → (j' : Job) × (lookup id (run m id out t u).store ≡ some j')
      × IsOver j'
      × (j'.status ≡ final_status out)
      × ((k : Text) → text_eq id k ≡ false → lookup k (run m id out t u).store ≡ lookup k m.store)
unfolding run pick_up start get
run-IsOver m id j out t u found keyed q h =
    let j1 : Job = record j { status = running; started_at = some t } in
    let m1 : Manager = record m { store = insert j.id j1 m.store } in
    let j2 = ended m.cfg.ttl j1 out u in
    let (over, final, same) = ended-IsOver m.cfg.ttl j1 out u h in
    let picked : (run m id out t u).store ≡ insert j2.id j2 m1.store =
      ground (arith, store-finish m1 j1 out u h) in
    let at = same ∙ keyed in
    (
      j2,
      ground (arith, lookup-insert j2.id id j2 m1.store, text_eq_refl id),
      over,
      final,
      λ k other. ground (arith, lookup-insert j2.id k j2 m1.store, lookup-insert j.id k j1 m.store),
    )

-- A job that is gone or not queued when a worker reaches it is not run: the manager stays as it is.
pub run_skips :
    (m : Manager) (id : Text) (out : Outcome) (t u : ℕ)
    → ((j : Job) → lookup id m.store ≡ some j → j.status ≢ queued)
    → run m id out t u ≡ m
unfolding run pick_up get
run_skips m id out t u h = elim (Option-cases (lookup id m.store)) [
  | inl gone ↦ ground arith
  | inr (j, found) ↦ ground (arith, h j found)
]
