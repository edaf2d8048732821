-- ===== src/Durable/Jobs.antt =====
-- internal/jobs/boltstore.go and its refinement of the in-memory store. `Recover` writes to the
-- bucket inside `ForEach`, which bbolt leaves undefined, and is not modelled. json.Marshal checks and
-- compacts the request and the result of a job, which are raw JSON, so only a job whose texts are compact
-- JSON reads back as it was.
use qoltanba.Prelude.{
  All, Bool, ℕ, ◌≡◌, refl, ap, inl, inr, none, some, Option, List, Text, IsUnique, insert-IsUnique,
  delete, delete-IsUnique, delete_if, delete_if-IsUnique, lookup, length, ◌-◌, arith, Result, ok,
  err,
}
use qoltanba.Jobs.Job.{Job, Error, not_found, exists}
use qoltanba.Jobs.Store.{Store, create, get, save, remove, is_reapable, reap}
use qoltanba.Durable.Bucket.{
  Bucket, Fault, flow, unreadable, unwritable, as_fault, put, fetch, expired_keys, delete_keys,
}
use qoltanba.Durable.Encoding.{
  IsStorable, Encodes, lookup-Encodes, put-Encodes, delete-Encodes, sweep-Encodes,
}
use qoltanba.Durable.Refinement.{Steps, IsRefinement, run, run_refines}

pub data Op : Type 0 where
  creating saving : Job → Op
  getting deleting : Text → Op
  reaping : ℕ → Op

pub data Answer : Type 0 where
  finished : Result (Fault Error) (Unit {0}) → Answer
  found : Result (Fault Error) Job → Answer
  reaped : Result (Fault Error) ℕ → Answer

-- the operations of `MemStore`
unfoldable pub mem_step : Steps Op Answer Store
unfolding create save get remove reap
mem_step (creating j) m = elim (create m j) [
  | err e ↦ (finished (err (flow e)), m)
  | ok m' ↦ (finished (ok tt), m')
]
mem_step (saving j) m = (finished (ok tt), save m j)
mem_step (getting id) m = (found (as_fault (get m id)), m)
mem_step (deleting id) m = (finished (ok tt), remove m id)
mem_step (reaping now) m = let (m', n) = reap m now in (reaped (ok n), m')

module _ {R : Type 0} (encode : Job → Option R) (decode : R → Option Job)
    (accepts : Text → R → Bool) where
  -- `put`, and `BoltStore.Save`
  unfoldable pub bolt_save : Bucket R → Job → Result (Fault Error) (Unit {0}) × Bucket R
  unfolding put
  bolt_save b j = elim (put encode decode accepts b j.id j) [
    | none ↦ (err unwritable, b)
    | some b' ↦ (ok tt, b')
  ]

  -- `BoltStore.Create`
  unfoldable pub bolt_create : Bucket R → Job → Result (Fault Error) (Unit {0}) × Bucket R
  unfolding lookup bolt_save
  bolt_create b j = elim (lookup j.id b) [ some _ ↦ (err (flow exists), b) | none ↦ bolt_save b j ]

  -- `BoltStore.Get`
  unfoldable pub bolt_get : Bucket R → Text → Result (Fault Error) Job
  unfolding fetch
  bolt_get b id = fetch encode decode not_found b id

  -- `BoltStore.Delete`
  unfoldable pub bolt_delete : Bucket R → Text → Bucket R
  unfolding delete
  bolt_delete b id = delete id b

  -- `BoltStore.Reap`
  unfoldable pub bolt_reap : Bucket R → ℕ → Result (Fault Error) ℕ × Bucket R
  unfolding expired_keys delete_keys is_reapable
  bolt_reap b now = elim (expired_keys encode decode (is_reapable now) b) [
    | none ↦ (err unreadable, b)
    | some ks ↦ (ok (length ks), delete_keys ks b)
  ]

  unfoldable pub bolt_step : Steps Op Answer (Bucket R)
  unfolding bolt_create bolt_save bolt_get bolt_delete bolt_reap
  bolt_step (creating j) b = let (r, b') = bolt_create b j in (finished r, b')
  bolt_step (saving j) b = let (r, b') = bolt_save b j in (finished r, b')
  bolt_step (getting id) b = (found (bolt_get b id), b)
  bolt_step (deleting id) b = (finished (ok tt), bolt_delete b id)
  bolt_step (reaping now) b = let (r, b') = bolt_reap b now in (reaped r, b')

  -- a record that is written can be stored
  abbrev pub IsStorableOp : Op → Type 0
  IsStorableOp (creating j) = IsStorable encode decode accepts j.id j
  IsStorableOp (saving j) = IsStorable encode decode accepts j.id j
  IsStorableOp (getting _) = Unit
  IsStorableOp (deleting _) = Unit
  IsStorableOp (reaping _) = Unit

  -- the bucket holds the encodings of the jobs, each id once
  abbrev pub Represents : Bucket R → Store → Type 0
  Represents b m = IsUnique m × Encodes encode decode b m

  bolt_save_lem :
      (b : Bucket R) (m : Store) (j : Job)
      → IsStorable encode decode accepts j.id j
      → Represents b m
      → ((bolt_save b j).0 ≡ ok tt) × Represents (bolt_save b j).1 (save m j)
  unfolding bolt_save save
  bolt_save_lem b m j t (u, h) =
      let (b', written, holds) = put-Encodes encode decode accepts b m j.id j t h in
      rw (written, bolt_save) (refl, (insert-IsUnique j.id j m u, holds))

  bolt_get_lem :
      (b : Bucket R) (m : Store) (id : Text) → Represents b m → bolt_get b id ≡ as_fault (get m id)
  unfolding bolt_get get fetch
  bolt_get_lem b m id (u, h) = elim (lookup-Encodes encode decode b m id h) [
    | inl (p, q) ↦ rw (p, bolt_get, fetch) (rw (q, get) refl)
    | inr (raw, s, p, q, d) ↦ rw (p, bolt_get, fetch) (rw (q, get) (rw d refl))
  ]

  creating_lem :
      (j : Job) (b : Bucket R) (m : Store)
      → IsStorable encode decode accepts j.id j
      → Represents b m
      → ((bolt_step (creating j) b).0 ≡ (mem_step (creating j) m).0)
        × Represents (bolt_step (creating j) b).1 (mem_step (creating j) m).1
  unfolding bolt_step mem_step bolt_create create save
  creating_lem j b m t h = elim (lookup-Encodes encode decode b m j.id h.1) [
    | inl (p, q) ↦
        let (same, next) = bolt_save_lem b m j t h in
        rw (p, bolt_step, bolt_create) (rw (q, mem_step, create) (ap finished same, next))
    | inr (raw, s, p, q, d) ↦ rw (p, bolt_step, bolt_create) (rw (q, mem_step, create) (refl, h))
  ]

  bolt_reap_lem :
      (b : Bucket R) (m : Store) (now : ℕ)
      → Represents b m
      → ((bolt_reap b now).0 ≡ ok (reap m now).1) × Represents (bolt_reap b now).1 (reap m now).0
  unfolding bolt_reap reap
  bolt_reap_lem b m now (u, h) =
      let (ks, collected, holds, counted, keys) =
        sweep-Encodes encode decode (is_reapable now) b m u h in
      let count : length ks ≡ length m - length (delete_if (is_reapable now) m) = omega arith in
      rw (collected, bolt_reap) (ap ok count, (delete_if-IsUnique (is_reapable now) m u, holds))

  bolt_step_lem : IsRefinement mem_step bolt_step Represents IsStorableOp
  unfolding mem_step bolt_step bolt_delete remove
  bolt_step_lem (creating j) b m t h = creating_lem j b m t h
  bolt_step_lem (saving j) b m t h =
      let (same, next) = bolt_save_lem b m j t h in (ap finished same, next)
  bolt_step_lem (getting id) b m t h = (ap found (bolt_get_lem b m id h), h)
  bolt_step_lem (deleting id) b m t (u, h) =
      (refl, (delete-IsUnique id m u, delete-Encodes encode decode b m id h))
  bolt_step_lem (reaping now) b m t h =
      let (same, next) = bolt_reap_lem b m now h in (ap reaped same, next)

  -- The durable store of jobs behaves as the in-memory one: from a bucket that holds the encodings of
  -- a store's jobs, every sequence of creations, saves, reads, deletions and sweeps gives the same
  -- answers on both, a second creation under an id refused on both. It is so where every job that is
  -- created or saved can be encoded, reads back as it was and is accepted by bbolt under its id.
  pub jobs_refine :
      (ops : List Op) (b : Bucket R) (m : Store)
      → All IsStorableOp ops
      → Represents b m
      → run bolt_step ops b ≡ run mem_step ops m
  jobs_refine ops b m t h =
      run_refines mem_step bolt_step Represents IsStorableOp ops b m bolt_step_lem t h
