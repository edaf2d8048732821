-- ===== src/Jobs/Lifecycle/World.antt =====
-- manager.go under concurrency: what holds of the store under every interleaving, and a cancellation
-- that is lost.
use qoltanba.Prelude.{
  ℕ, ◌≡◌, refl, sym, subst, Bool, true, false, some, Text, text_eq, text_eq_refl, lookup, insert,
  lookup-insert, lookup-delete, delete-IsUnique, ok, ok-injective, insert-IsUnique, IsUnique,
  lookup-delete_if, delete_if-IsUnique, arith, Bool-cases, Option-cases, inl, inr,
}
use qoltanba.Jobs.Job.{Error, running, succeeded, canceled, terminal, Job}
use qoltanba.Jobs.Store.{Store, create, remove, get, save, is_reapable, reap}
use qoltanba.Jobs.Manager.{
  Manager, set_expiry, new_job, cancel, save_canceled, canceled_job, Outcome, output, failure,
  context_canceled, start, ended, finish,
}
use qoltanba.Jobs.Goroutines.{
  World, Step, stored, queued_up, turned_away, rolled_back, looked_up, canceled_by_user, requeued,
  dequeued, taken, skipped, marked, finished, swept, Reach, here, next,
}
use qoltanba.Jobs.Lifecycle.{IsOver, is_final, ended-IsOver, store-finish, store-fire_webhook}

-- keys are distinct, and every job that is over has its payload scrubbed and its end stamped
pub record IsScrubbed (m : Store) : Type 0 where
  pub unique : IsUnique m
  pub over : (k : Text) (j : Job) → lookup k m ≡ some j → terminal j.status ≡ true → IsOver j

insert-IsScrubbed :
    (m : Store) (j : Job)
    → IsScrubbed m
    → (terminal j.status ≡ true → IsOver j)
    → IsScrubbed (insert j.id j m)
insert-IsScrubbed m j s h = record {
  unique = insert-IsUnique j.id j m s.unique;
  over = λ k j' found t. elim (Bool-cases (text_eq j.id k)) [
    | inl same ↦
        let e : j ≡ j' = ground (arith, lookup-insert j.id k j m) in
        subst IsOver e (h (ground arith))
    | inr other ↦ s.over k j' (ground (arith, lookup-insert j.id k j m)) t
  ];
}

-- a job that is not over needs no scrubbing
live-IsScrubbed :
    (m : Store) (j : Job) → IsScrubbed m → terminal j.status ≡ false → IsScrubbed (insert j.id j m)
live-IsScrubbed m j s live = insert-IsScrubbed m j s (λ t. absurd (ground arith))

reap-IsScrubbed : (m : Store) (now : ℕ) → IsScrubbed m → IsScrubbed (reap m now).0
unfolding reap
reap-IsScrubbed m now s = record {
  unique = delete_if-IsUnique (is_reapable now) m s.unique;
  over =
      λ k j found t. s.over k j (ground (arith, lookup-delete_if (is_reapable now) k m s.unique)) t;
}

create-IsScrubbed :
    (m m' : Store) (j : Job)
    → IsScrubbed m
    → terminal j.status ≡ false
    → create m j ≡ ok m'
    → IsScrubbed m'
unfolding create
create-IsScrubbed m m' j s live h = elim (Option-cases (lookup j.id m)) [
  | inr (old, known) ↦ absurd (ground arith)
  | inl new ↦
      subst IsScrubbed (ok-injective {E = Error} (insert j.id j m) m' (ground arith))
        (live-IsScrubbed m j s live)
]

remove-IsScrubbed : (m : Store) (id : Text) → IsScrubbed m → IsScrubbed (remove m id)
unfolding remove
remove-IsScrubbed m id s = record {
  unique = delete-IsUnique id m s.unique;
  over = λ k j found t. elim (Bool-cases (text_eq id k)) [
    | inl gone ↦ absurd (ground (arith, lookup-delete id k m s.unique))
    | inr other ↦ s.over k j (ground (arith, lookup-delete id k m s.unique)) t
  ];
}

canceled_job-IsOver :
    (m : Manager) (j : Job) (now : ℕ)
    → IsOver (canceled_job m j now)
      × ((canceled_job m j now).id ≡ j.id)
      × ((canceled_job m j now).status ≡ canceled)
unfolding set_expiry terminal
canceled_job-IsOver m j now = ground arith

store-cancel :
    (m : Manager) (id : Text) (now : ℕ) (j : Job)
    → lookup id m.store ≡ some j
    → terminal j.status ≡ false
    → (cancel m id now).1.store ≡ insert (canceled_job m j now).id (canceled_job m j now) m.store
unfolding cancel get save
store-cancel m id now j found live = ground (
  arith,
  store-fire_webhook
      (record m { store = insert (canceled_job m j now).id (canceled_job m j now) m.store })
      (canceled_job m j now),
)

save_canceled-IsScrubbed :
    (m : Manager) (j : Job) (now : ℕ)
    → IsScrubbed m.store
    → IsScrubbed (save_canceled m j now).store
unfolding save
save_canceled-IsScrubbed m j now s =
    let j' = canceled_job m j now in
    subst IsScrubbed (sym (store-fire_webhook (record m { store = save m.store j' }) j'))
      (insert-IsScrubbed m.store j' s (λ t. (canceled_job-IsOver m j now).0))

finish-IsScrubbed :
    (m : Manager) (j : Job) (out : Outcome) (now : ℕ)
    → IsScrubbed m.store
    → IsScrubbed (finish m j out now).store
finish-IsScrubbed m j out now s = elim (Bool-cases (is_final out)) [
  | inl final ↦ subst IsScrubbed (sym (store-finish m j out now final)) (
      insert-IsScrubbed m.store (ended m.cfg.ttl j out now) s
        (λ t. (ended-IsOver m.cfg.ttl j out now final).0))
  | inr interrupted ↦ subst IsScrubbed (sym (unfinished m j out now interrupted)) s
]
  where
    unfinished :
        (m : Manager) (j : Job) (out : Outcome) (now : ℕ)
        → is_final out ≡ false
        → (finish m j out now).store ≡ m.store
    unfinished m j context_canceled now h = unfold finish in refl
    unfinished m j (output r) now h = absurd (ground arith)
    unfinished m j (failure e) now h = absurd (ground arith)

Step-IsScrubbed :
    (valid_op : Text → Bool) (w x : World)
    → IsScrubbed w.manager.store
    → Step valid_op w x
    → IsScrubbed x.manager.store
unfolding start terminal save
Step-IsScrubbed valid_op w x s (stored _ id op request url now m v small made) =
    create-IsScrubbed w.manager.store m (new_job id op request url now) s refl made
Step-IsScrubbed valid_op w x s (queued_up _ j before after p room) = s
Step-IsScrubbed valid_op w x s (turned_away _ j before after p full) = s
Step-IsScrubbed valid_op w x s (rolled_back _ j before after p) =
    remove-IsScrubbed w.manager.store j.id s
Step-IsScrubbed valid_op w x s (looked_up _ id j p live) = s
Step-IsScrubbed valid_op w x s (canceled_by_user _ j before after now p) =
    save_canceled-IsScrubbed w.manager j now s
Step-IsScrubbed valid_op w x s (requeued _ id room) = s
Step-IsScrubbed valid_op w x s (dequeued _ id ids q) = s
Step-IsScrubbed valid_op w x s (taken _ id before after j q p) = s
Step-IsScrubbed valid_op w x s (skipped _ id before after q p) = s
Step-IsScrubbed valid_op w x s (marked _ j before after now p) =
    live-IsScrubbed w.manager.store (record j { status = running; started_at = some now }) s refl
Step-IsScrubbed valid_op w x s (finished _ j before after out now p) =
    finish-IsScrubbed w.manager j out now s
Step-IsScrubbed valid_op w x s (swept _ now) = reap-IsScrubbed w.manager.store now s

-- From a store that is scrubbed, whatever the order in which submissions, cancellations, workers and
-- sweeps act between each other's reads and writes, every job in the store that is succeeded, failed or
-- canceled has an empty payload and the time of its end.
pub Reach-IsScrubbed :
    (valid_op : Text → Bool) (v w : World)
    → IsScrubbed v.manager.store
    → Reach valid_op v w
    → IsScrubbed w.manager.store
Reach-IsScrubbed valid_op v w s here = s
Reach-IsScrubbed valid_op v w s (next {w = u} r step) =
    Step-IsScrubbed valid_op u w (Reach-IsScrubbed valid_op v u s r) step

-- The statuses that `Terminal` calls final are not: a job, stored under its id, that is canceled while its operation runs
-- is stored as succeeded once the operation returns an output.
pub finish-overwrites_cancel :
    (m : Manager) (j : Job) (raw : Text) (t u : ℕ)
    → lookup j.id m.store ≡ some j
    → j.status ≡ running
    → ((jc : Job) × (lookup j.id (cancel m j.id t).1.store ≡ some jc) × (jc.status ≡ canceled))
      × ((jf : Job) × (lookup j.id (finish (cancel m j.id t).1 j (output (some raw)) u).store
            ≡ some jf)
          × (jf.status ≡ succeeded))
unfolding terminal
finish-overwrites_cancel m j raw t u found r =
    let m' = (cancel m j.id t).1 in
    let jc = canceled_job m j t in
    let jf = ended m'.cfg.ttl j (output (some raw)) u in
    let (over, same, status) = canceled_job-IsOver m j t in
    let (over', status', same') = ended-IsOver m'.cfg.ttl j (output (some raw)) u refl in
    let stored = store-cancel m j.id t j found (ground arith) in
    let stored' = store-finish m' j (output (some raw)) u refl in
    (
      (jc, ground (arith, lookup-insert jc.id j.id jc m.store, text_eq_refl j.id), status),
      (jf, ground (arith, lookup-insert jf.id j.id jf m'.store, text_eq_refl j.id), status'),
    )
