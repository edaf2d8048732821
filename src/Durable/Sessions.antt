-- ===== src/Durable/Sessions.antt =====
-- internal/multisign/store.go, the bbolt store, and its refinement of the in-memory store.
use qoltanba.Prelude.{
  All, Bool, ◌≡◌, refl, ap, inl, inr, none, some, Option, List, Text, IsUnique, insert-IsUnique,
  delete, delete-IsUnique, Result, ok, err,
}
use qoltanba.Multisign.Session.{Session}
use qoltanba.Multisign.Service.{
  Error, not_found, Store, store_get, store_create, store_save, cancel,
}
use qoltanba.Durable.Bucket.{Bucket, Fault, flow, unwritable, as_fault, put, fetch}
use qoltanba.Durable.Encoding.{IsStorable, Encodes, lookup-Encodes, put-Encodes, delete-Encodes}
use qoltanba.Durable.Refinement.{Steps, IsRefinement, run, run_refines}

pub data Op : Type 0 where
  creating saving : Session → Op
  getting deleting : Text → Op

pub data Answer : Type 0 where
  finished : Result (Fault Error) (Unit {0}) → Answer
  found : Result (Fault Error) Session → Answer

-- the operations of `MemStore`
unfoldable pub mem_step : Steps Op Answer Store
unfolding store_create store_save store_get cancel
mem_step (creating s) m = (finished (ok tt), store_create m s)
mem_step (saving s) m = elim (store_save m s) [
  | err e ↦ (finished (err (flow e)), m)
  | ok m' ↦ (finished (ok tt), m')
]
mem_step (getting id) m = (found (as_fault (store_get m id)), m)
mem_step (deleting id) m = (finished (ok tt), cancel m id)

module _ {R : Type 0} (encode : Session → Option R) (decode : R → Option Session)
    (accepts : Text → R → Bool) where
  -- `BoltStore.put` and `BoltStore.Create`
  unfoldable pub bolt_put : Bucket R → Session → Result (Fault Error) (Unit {0}) × Bucket R
  unfolding put
  bolt_put b s = elim (put encode decode accepts b s.id s) [
    | none ↦ (err unwritable, b)
    | some b' ↦ (ok tt, b')
  ]

  -- `BoltStore.Get`
  unfoldable pub bolt_get : Bucket R → Text → Result (Fault Error) Session
  unfolding fetch
  bolt_get b id = fetch encode decode not_found b id

  -- `BoltStore.Save`
  unfoldable pub bolt_save : Bucket R → Session → Result (Fault Error) (Unit {0}) × Bucket R
  unfolding bolt_get bolt_put
  bolt_save b s = elim (bolt_get b s.id) [ err e ↦ (err e, b) | ok _ ↦ bolt_put b s ]

  -- `BoltStore.Delete`
  unfoldable pub bolt_delete : Bucket R → Text → Bucket R
  unfolding delete
  bolt_delete b id = delete id b

  unfoldable pub bolt_step : Steps Op Answer (Bucket R)
  unfolding bolt_put bolt_save bolt_get bolt_delete
  bolt_step (creating s) b = let (r, b') = bolt_put b s in (finished r, b')
  bolt_step (saving s) b = let (r, b') = bolt_save b s in (finished r, b')
  bolt_step (getting id) b = (found (bolt_get b id), b)
  bolt_step (deleting id) b = (finished (ok tt), bolt_delete b id)

  -- a record that is written can be stored
  abbrev pub IsStorableOp : Op → Type 0
  IsStorableOp (creating s) = IsStorable encode decode accepts s.id s
  IsStorableOp (saving s) = IsStorable encode decode accepts s.id s
  IsStorableOp (getting _) = Unit
  IsStorableOp (deleting _) = Unit

  -- the bucket holds the encodings of the sessions, each id once
  abbrev pub Represents : Bucket R → Store → Type 0
  Represents b m = IsUnique m × Encodes encode decode b m

  bolt_put_lem :
      (b : Bucket R) (m : Store) (s : Session)
      → IsStorable encode decode accepts s.id s
      → Represents b m
      → ((bolt_put b s).0 ≡ ok tt) × Represents (bolt_put b s).1 (store_create m s)
  unfolding bolt_put store_create
  bolt_put_lem b m s t (u, h) =
      let (b', written, holds) = put-Encodes encode decode accepts b m s.id s t h in
      rw (written, bolt_put) (refl, (insert-IsUnique s.id s m u, holds))

  bolt_get_lem :
      (b : Bucket R) (m : Store) (id : Text)
      → Represents b m
      → bolt_get b id ≡ as_fault (store_get m id)
  unfolding bolt_get store_get fetch
  bolt_get_lem b m id (u, h) = elim (lookup-Encodes encode decode b m id h) [
    | inl (p, q) ↦ rw (p, bolt_get, fetch) (rw (q, store_get) refl)
    | inr (raw, s, p, q, d) ↦ rw (p, bolt_get, fetch) (rw (q, store_get) (rw d refl))
  ]

  saving_lem :
      (s : Session) (b : Bucket R) (m : Store)
      → IsStorable encode decode accepts s.id s
      → Represents b m
      → ((bolt_step (saving s) b).0 ≡ (mem_step (saving s) m).0)
        × Represents (bolt_step (saving s) b).1 (mem_step (saving s) m).1
  unfolding bolt_step mem_step bolt_save bolt_get store_save fetch store_create
  saving_lem s b m t h = elim (lookup-Encodes encode decode b m s.id h.1) [
    | inl (p, q) ↦
        rw (p, bolt_step, bolt_save, bolt_get, fetch) (rw (q, mem_step, store_save) (refl, h))
    | inr (raw, s', p, q, d) ↦
        let (same, next) = bolt_put_lem b m s t h in
        rw (p, bolt_step, bolt_save, bolt_get, fetch)
          (rw (q, mem_step, store_save) (rw d (ap finished same, next)))
  ]

  bolt_step_lem : IsRefinement mem_step bolt_step Represents IsStorableOp
  unfolding mem_step bolt_step bolt_delete cancel
  bolt_step_lem (creating s) b m t h =
      let (same, next) = bolt_put_lem b m s t h in (ap finished same, next)
  bolt_step_lem (saving s) b m t h = saving_lem s b m t h
  bolt_step_lem (getting id) b m t h = (ap found (bolt_get_lem b m id h), h)
  bolt_step_lem (deleting id) b m t (u, h) =
      (refl, (delete-IsUnique id m u, delete-Encodes encode decode b m id h))

  -- The durable store of signing sessions behaves as the in-memory one: from a bucket that holds the
  -- encodings of a store's sessions, every sequence of creations, saves, reads and deletions gives
  -- the same answers on both, a save of a session that is gone refused on both. It is so
  -- where every session that is created or saved can be encoded, reads back as it was, and is accepted
  -- by bbolt under its id.
  pub sessions_refine :
      (ops : List Op) (b : Bucket R) (m : Store)
      → All IsStorableOp ops
      → Represents b m
      → run bolt_step ops b ≡ run mem_step ops m
  sessions_refine ops b m t h =
      run_refines mem_step bolt_step Represents IsStorableOp ops b m bolt_step_lem t h
