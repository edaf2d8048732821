-- ===== src/Jobs/Goroutines.antt =====
-- manager.go under concurrency: the goroutines of submissions, cancellations, workers and sweeps, cut
-- wherever they leave the store or the queue to each other. Each keeps its own copy of a job, or an id,
-- between two of its actions. `requeue` feeds ids that
-- Start has recovered. The idempotency keys, behind their own lock, do not bear on the store.
use qoltanba.Prelude.{
  ℕ, ◌<◌, ◌≤◌, ◌≡◌, Bool, true, false, none, some, List, ◌∷◌, ◌++◌, [], length, Text, ok,
}
use qoltanba.Jobs.Job.{terminal, Job}
use qoltanba.Jobs.Store.{Store, create, get, remove, reap}
use qoltanba.Jobs.Manager.{
  Manager, new_job, is_too_large, save_canceled, Outcome, pick_up, start, finish,
}

pub record World : Type 0 where
  pub manager : Manager
  pub created : List Job  -- copies that a submission has stored and not yet queued
  pub rejected : List Job  -- copies that a submission could not queue and has not yet deleted
  pub canceling : List Job  -- copies that a cancellation has read and not yet saved
  pub received : List Text  -- ids that a worker has taken from the queue and not yet read
  pub picked : List Job  -- copies that a worker has read and not yet marked
  pub active : List Job  -- copies whose operation is running

-- one atomic action of some goroutine
pub data Step (valid_op : Text → Bool) : World → World → Type 0 where
  stored :
      (w : World) (id op request url : Text) (now : ℕ) (m : Store)
      → valid_op op ≡ true
      → is_too_large w.manager request ≡ false
      → create w.manager.store (new_job id op request url now) ≡ ok m
      → Step valid_op w (record w {
        manager = record w.manager { store = m };
        created = new_job id op request url now ∷ w.created;
      })
  queued_up :
      (w : World) (j : Job) (before after : List Job)
      → w.created ≡ before ++ j ∷ after
      → length w.manager.queue < w.manager.cfg.queue_size
      → Step valid_op w (record w {
        manager = record w.manager { queue = w.manager.queue ++ j.id ∷ [] };
        created = before ++ after;
      })
  turned_away :
      (w : World) (j : Job) (before after : List Job)
      → w.created ≡ before ++ j ∷ after
      → w.manager.cfg.queue_size ≤ length w.manager.queue
      → Step valid_op w (record w { created = before ++ after; rejected = j ∷ w.rejected })
  rolled_back :
      (w : World) (j : Job) (before after : List Job)
      → w.rejected ≡ before ++ j ∷ after
      → Step valid_op w (record w {
        manager = record w.manager { store = remove w.manager.store j.id };
        rejected = before ++ after;
      })
  looked_up :
      (w : World) (id : Text) (j : Job)
      → get w.manager.store id ≡ ok j
      → terminal j.status ≡ false
      → Step valid_op w (record w { canceling = j ∷ w.canceling })
  canceled_by_user :
      (w : World) (j : Job) (before after : List Job) (now : ℕ)
      → w.canceling ≡ before ++ j ∷ after
      → Step valid_op w
          (record w { manager = save_canceled w.manager j now; canceling = before ++ after })
  requeued :
      (w : World) (id : Text)
      → length w.manager.queue < w.manager.cfg.queue_size
      → Step valid_op w
          (record w { manager = record w.manager { queue = w.manager.queue ++ id ∷ [] } })
  dequeued :
      (w : World) (id : Text) (ids : List Text)
      → w.manager.queue ≡ id ∷ ids
      → Step valid_op w
          (record w { manager = record w.manager { queue = ids }; received = id ∷ w.received })
  taken :
      (w : World) (id : Text) (before after : List Text) (j : Job)
      → w.received ≡ before ++ id ∷ after
      → pick_up w.manager id ≡ some j
      → Step valid_op w (record w { received = before ++ after; picked = j ∷ w.picked })
  skipped :
      (w : World) (id : Text) (before after : List Text)
      → w.received ≡ before ++ id ∷ after
      → pick_up w.manager id ≡ none
      → Step valid_op w (record w { received = before ++ after })
  marked :
      (w : World) (j : Job) (before after : List Job) (now : ℕ)
      → w.picked ≡ before ++ j ∷ after
      → Step valid_op w (record w {
        manager = (start w.manager j now).1;
        picked = before ++ after;
        active = (start w.manager j now).0 ∷ w.active;
      })
  finished :
      (w : World) (j : Job) (before after : List Job) (out : Outcome) (now : ℕ)
      → w.active ≡ before ++ j ∷ after
      → Step valid_op w
          (record w { manager = finish w.manager j out now; active = before ++ after })
  swept :
      (w : World) (now : ℕ)
      → Step valid_op w
          (record w { manager = record w.manager { store = (reap w.manager.store now).0 } })

pub data Reach (valid_op : Text → Bool) (v : World) : World → Type 0 where
  here : Reach valid_op v v
  next : {w x : World} → Reach valid_op v w → Step valid_op w x → Reach valid_op v x
