-- ===== src/Examples/Jobs.antt =====
-- The operations of the job manager on a store with one job.
use mathlib.Core.List.{Memᴰ}
use qoltanba.Prelude.{
  ℕ, ◌≤◌, ◌≡◌, ◌≢◌, ◌⊎◌, refl, ◌↔◌, Bool, true, false, none, some, List, [], ◌∷◌, ◌++◌, Text, codes,
  text_eq, length, lookup, insert, ok, err, arith,
}
use qoltanba.Jobs.Job.{queued, running, succeeded, canceled, terminal, Job, view, Error}
use qoltanba.Jobs.Store.{Store, create, get, recover}
use qoltanba.Jobs.Manager.{
  Manager, new_job, enqueue, submit, submit_idempotent, submit_fresh, remember_key, make_room,
  cancel, save_canceled, output, finish, run,
}
use qoltanba.Jobs.Submission.{submit_outcome, submit_idempotent_repeat}
use qoltanba.Jobs.Lifecycle.{IsOver, run-IsOver}
use qoltanba.Jobs.Goroutines.{World, Step, Reach}
use qoltanba.Jobs.Lifecycle.World.{IsScrubbed, Reach-IsScrubbed, finish-overwrites_cancel}
use qoltanba.Jobs.Recovery.{recover-queues}

abbrev job : Job
job = new_job (codes "j") (codes "verify") (codes "payload") (codes "url") 10

abbrev running_job : Job
running_job = record job { status = running; started_at = some 20 }

abbrev manager : Store → List Text → ℕ → Manager
manager store queue size = record {
  store = store;
  cfg = record {
    workers = 1;
    queue_size = size;
    ttl = 60;
    max_input_bytes = 100;
    reap_interval = 60;
  };
  queue = queue;
  idem_keys = [];
  sent = [];
}

abbrev any_op : Text → Bool
any_op op = true

abbrev queue_of_one : Manager
queue_of_one = manager ((codes "j", job) ∷ []) (codes "j" ∷ []) 1

abbrev idle : Manager
idle = manager [] [] 1

submit-idle :
    submit any_op idle (codes "j") (codes "verify") (codes "payload") (codes "url") 10
    ≡ (ok (view job), queue_of_one)
unfolding submit create enqueue lookup insert text_eq
submit-idle = refl

submit_outcome_example :
    ((e : Error) × (submit any_op idle
          (codes "j")
          (codes "verify")
          (codes "payload")
          (codes "url")
          10
        ≡ (err e, idle)))
    ⊎ ((m' : Manager) × (submit any_op idle
            (codes "j")
            (codes "verify")
            (codes "payload")
            (codes "url")
            10
          ≡ (ok (view job), m'))
        × (true ≡ true)
        × (lookup (codes "j") idle.store ≡ none)
        × (lookup (codes "j") m'.store ≡ some job)
        × (m'.queue ≡ [] ++ codes "j" ∷ [])
        × (length m'.queue ≤ 1))
submit_outcome_example =
    submit_outcome any_op idle (codes "j") (codes "verify") (codes "payload") (codes "url") 10

abbrev keyed : Manager
keyed = record queue_of_one { idem_keys = (codes "key", record { id = codes "j"; at = 10 }) ∷ [] }

submit_keyed :
    submit_idempotent any_op idle
      (codes "j")
      (codes "verify")
      (codes "payload")
      (codes "url")
      (codes "key")
      10
    ≡ (ok (view job), keyed)
unfolding submit_idempotent submit_fresh remember_key make_room submit create enqueue lookup insert
    text_eq view
submit_keyed = refl

submit_idempotent_repeat_example :
    submit_idempotent any_op keyed (codes "k") (codes "sign") (codes "other") [] (codes "key") 12
    ≡ (ok (view job), keyed)
submit_idempotent_repeat_example =
    submit_idempotent_repeat any_op idle (codes "j") (codes "verify") (codes "payload")
      (codes "url") (codes "key") 10 (view job) keyed (codes "k") (codes "sign") (codes "other") []
      12 refl submit_keyed

stored : lookup (codes "j") queue_of_one.store ≡ some job
unfolding lookup text_eq
stored = refl

run-IsOver_example :
    (j' : Job) × (lookup
        (codes "j")
        (run queue_of_one (codes "j") (output (some (codes "r"))) 20 30).store
      ≡ some j')
    × IsOver j'
    × (j'.status ≡ succeeded)
    × ((k : Text)
        → text_eq (codes "j") k ≡ false
        → lookup k (run queue_of_one (codes "j") (output (some (codes "r"))) 20 30).store
          ≡ lookup k queue_of_one.store)
run-IsOver_example =
    run-IsOver queue_of_one (codes "j") job (output (some (codes "r"))) 20 30 stored refl refl refl

no_job : (j : Job) → lookup (codes "j") idle.store ≡ some j → j.status ≢ queued
unfolding lookup
no_job j h = absurd (ground arith)

abbrev start_world : World
start_world = record {
  manager = idle;
  created = [];
  rejected = [];
  canceling = [];
  received = [];
  picked = [];
  active = [];
}

-- the job is stored but not queued yet
abbrev stored_world : World
stored_world = record start_world {
  manager = record idle { store = (codes "j", job) ∷ [] };
  created = job ∷ [];
}

-- a cancellation has read it
abbrev reading_world : World
reading_world = record stored_world { canceling = job ∷ [] }

-- it is queued, while the cancellation is under way
abbrev queued_world : World
queued_world = record reading_world {
  manager = record stored_world.manager { queue = codes "j" ∷ [] };
  created = [];
}

idle-IsScrubbed : IsScrubbed idle.store
unfolding lookup
idle-IsScrubbed = record { unique = tt; over = λ k j h t. absurd (ground arith) }

readable : get stored_world.manager.store (codes "j") ≡ ok job
unfolding get lookup text_eq
readable = refl

Reach-IsScrubbed_example : IsScrubbed (save_canceled queued_world.manager job 15).store
unfolding create get lookup insert terminal
Reach-IsScrubbed_example =
    Reach-IsScrubbed any_op start_world
      (record queued_world { manager = save_canceled queued_world.manager job 15; canceling = [] })
      idle-IsScrubbed
      (Reach.next
        (Reach.next
          (Reach.next
            (Reach.next Reach.here (
              Step.stored start_world (codes "j") (codes "verify") (codes "payload") (codes "url")
                10 stored_world.manager.store refl refl refl))
            (Step.looked_up stored_world (codes "j") job readable refl))
          (Step.queued_up reading_world job [] [] refl (omega arith)))
        (Step.canceled_by_user queued_world job [] [] 15 refl))

abbrev one_running : Store
one_running = (codes "j", running_job) ∷ []

stored_running : lookup (codes "j") one_running ≡ some running_job
unfolding lookup text_eq
stored_running = refl

finish-overwrites_cancel_example :
    ((jc : Job) × (lookup (codes "j") (cancel (manager one_running [] 1) (codes "j") 25).1.store
        ≡ some jc)
      × (jc.status ≡ canceled))
    × ((jf : Job) × (lookup
            (codes "j")
            (finish
              (cancel (manager one_running [] 1) (codes "j") 25).1
              running_job
              (output (some (codes "r")))
              30).store
          ≡ some jf)
        × (jf.status ≡ succeeded))
finish-overwrites_cancel_example =
    finish-overwrites_cancel (manager one_running [] 1) running_job (codes "r") 25 30 stored_running
      refl

recover-queues_example :
    (lookup (codes "j") (recover one_running).0 ≡ some (record running_job { status = queued }))
    × (Memᴰ (codes "j") (recover one_running).1
        ↔ ((j : Job) × (lookup (codes "j") (recover one_running).0 ≡ some j) × (j.status ≡ queued)))
unfolding lookup text_eq
recover-queues_example = recover-queues one_running (codes "j") (refl, tt) (refl, tt)
