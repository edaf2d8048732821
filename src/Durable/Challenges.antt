-- ===== src/Durable/Challenges.antt =====
-- internal/challenge/store.go, the bbolt store, and its refinement of the in-memory store.
use qoltanba.Prelude.{
  All, Bool, ℕ, ◌-◌, ◌≡◌, refl, ap, inl, inr, if◌then◌else◌, true, Option, none, some, List, length,
  Text, IsUnique, insert-IsUnique, delete_if, delete_if-IsUnique, Result, ok, err, arith,
  Bool-cases,
}
use qoltanba.Challenge.Store.{
  Challenge, Error, not_found, already_used, Store, create, consume, is_past, reap,
}
use qoltanba.Durable.Bucket.{
  Bucket, Fault, flow, unreadable, unwritable, as_fault, put, fetch, expired_keys, delete_keys,
}
use qoltanba.Durable.Encoding.{
  IsStorable, Encodes, lookup-Encodes, put-Encodes, sweep-Encodes, AllEntries, lookup-AllEntries,
  insert-AllEntries, delete_if-AllEntries,
}
use qoltanba.Durable.Refinement.{Steps, IsRefinement, run, run_refines}

pub data Op : Type 0 where
  creating : Challenge → Op
  consuming : Text → Op
  reaping : ℕ → Op

pub data Answer : Type 0 where
  created : Result (Fault Error) (Unit {0}) → Answer
  consumed : Result (Fault Error) Challenge → Answer
  reaped : Result (Fault Error) ℕ → Answer

-- the operations of `MemStore`
unfoldable pub mem_step : Steps Op Answer Store
unfolding create consume reap
mem_step (creating c) m = (created (ok tt), create m c)
mem_step (consuming id) m = let (r, m') = consume m id in (consumed (as_fault r), m')
mem_step (reaping now) m = let (m', n) = reap m now in (reaped (ok n), m')

module _ {R : Type 0} (encode : Challenge → Option R) (decode : R → Option Challenge)
    (accepts : Text → R → Bool) where
  -- `BoltStore.Create`
  unfoldable pub bolt_create : Bucket R → Challenge → Result (Fault Error) (Unit {0}) × Bucket R
  unfolding put
  bolt_create b c = elim (put encode decode accepts b c.id c) [
    | none ↦ (err unwritable, b)
    | some b' ↦ (ok tt, b')
  ]

  -- `BoltStore.Consume`
  unfoldable pub bolt_consume : Bucket R → Text → Result (Fault Error) Challenge × Bucket R
  unfolding fetch put
  bolt_consume b id = elim (fetch encode decode not_found b id) [
    | err e ↦ (err e, b)
    | ok c ↦
        let c' = record c { used = true } in
        let saved : Result (Fault Error) Challenge × Bucket R =
          elim (put encode decode accepts b id c') [
            | none ↦ (err unwritable, b)
            | some b' ↦ (ok c', b')
          ] in
        if c.used then (err (flow already_used), b) else saved
  ]

  -- `BoltStore.Reap`
  unfoldable pub bolt_reap : Bucket R → ℕ → Result (Fault Error) ℕ × Bucket R
  unfolding expired_keys delete_keys is_past
  bolt_reap b now = elim (expired_keys encode decode (is_past now) b) [
    | none ↦ (err unreadable, b)
    | some ks ↦ (ok (length ks), delete_keys ks b)
  ]

  unfoldable pub bolt_step : Steps Op Answer (Bucket R)
  unfolding bolt_create bolt_consume bolt_reap
  bolt_step (creating c) b = let (r, b') = bolt_create b c in (created r, b')
  bolt_step (consuming id) b = let (r, b') = bolt_consume b id in (consumed r, b')
  bolt_step (reaping now) b = let (r, b') = bolt_reap b now in (reaped r, b')

  -- the record can be stored under the key once it is used
  abbrev pub CanBeUsed : Text → Challenge → Type 0
  CanBeUsed k c = IsStorable encode decode accepts k (record c { used = true })

  -- a record that is written can be stored, as it is and once it is used
  abbrev pub IsStorableOp : Op → Type 0
  IsStorableOp (creating c) = IsStorable encode decode accepts c.id c × CanBeUsed c.id c
  IsStorableOp (consuming _) = Unit
  IsStorableOp (reaping _) = Unit

  -- the bucket holds the encodings of the challenges, each id once,
  -- and each can be stored once it is used
  abbrev pub Represents : Bucket R → Store → Type 0
  Represents b m = IsUnique m × Encodes encode decode b m × AllEntries CanBeUsed m

  bolt_create_lem :
      (b : Bucket R) (m : Store) (c : Challenge)
      → IsStorable encode decode accepts c.id c
      → CanBeUsed c.id c
      → Represents b m
      → ((bolt_create b c).0 ≡ ok tt) × Represents (bolt_create b c).1 (create m c)
  unfolding bolt_create create
  bolt_create_lem b m c t t' (u, h, a) =
      let (b', written, holds) = put-Encodes encode decode accepts b m c.id c t h in
      rw (written, bolt_create)
        (refl, (insert-IsUnique c.id c m u, holds, insert-AllEntries CanBeUsed m c.id c a t'))

  bolt_consume_lem :
      (b : Bucket R) (m : Store) (id : Text)
      → Represents b m
      → ((bolt_consume b id).0 ≡ as_fault (consume m id).0)
        × Represents (bolt_consume b id).1 (consume m id).1
  unfolding bolt_consume consume fetch
  bolt_consume_lem b m id (u, h, a) = elim (lookup-Encodes encode decode b m id h) [
    | inl (p, q) ↦ rw (p, bolt_consume) (rw (q, consume) (refl, (u, h, a)))
    | inr (raw, c, p, q, d) ↦ elim (Bool-cases c.used) [
      | inl used ↦ rw (p, bolt_consume) (rw (q, consume) (rw d (rw used (refl, (u, h, a)))))
      | inr fresh ↦
          let c' = record c { used = true } in
          let t = lookup-AllEntries CanBeUsed m id c a q in
          let (b', written, holds) = put-Encodes encode decode accepts b m id c' t h in
          rw (p, bolt_consume)
            (rw (q, consume)
              (rw d (
                rw fresh (
                  rw written (
                    refl,
                    (insert-IsUnique id c' m u, holds, insert-AllEntries CanBeUsed m id c' a t),
                  )))))
    ]
  ]

  bolt_reap_lem :
      (b : Bucket R) (m : Store) (now : ℕ)
      → Represents b m
      → ((bolt_reap b now).0 ≡ ok (reap m now).1) × Represents (bolt_reap b now).1 (reap m now).0
  unfolding bolt_reap reap
  bolt_reap_lem b m now (u, h, a) =
      let (ks, collected, holds, counted, keys) =
        sweep-Encodes encode decode (is_past now) b m u h in
      let count : length ks ≡ length m - length (delete_if (is_past now) m) = omega arith in
      rw (collected, bolt_reap)
        (
          ap ok count,
          (
            delete_if-IsUnique (is_past now) m u,
            holds,
            delete_if-AllEntries CanBeUsed (is_past now) m a,
          ),
        )

  bolt_step_lem : IsRefinement mem_step bolt_step Represents IsStorableOp
  unfolding mem_step bolt_step
  bolt_step_lem (creating c) b m t h =
      let (same, next) = bolt_create_lem b m c t.0 t.1 h in (ap created same, next)
  bolt_step_lem (consuming id) b m t h =
      let (same, next) = bolt_consume_lem b m id h in (ap consumed same, next)
  bolt_step_lem (reaping now) b m t h =
      let (same, next) = bolt_reap_lem b m now h in (ap reaped same, next)

  -- The durable store of challenges behaves as the in-memory one: from a bucket that holds the
  -- encodings of a store's challenges, each of which can be stored once it is used, every sequence of creations, consumptions and sweeps gives the
  -- same answers on both. It is so where every challenge that is created, as it is and once it is used,
  -- can be encoded, reads back as it was, and is accepted by bbolt under its id.
  pub challenges_refine :
      (ops : List Op) (b : Bucket R) (m : Store)
      → All IsStorableOp ops
      → Represents b m
      → run bolt_step ops b ≡ run mem_step ops m
  challenges_refine ops b m t h =
      run_refines mem_step bolt_step Represents IsStorableOp ops b m bolt_step_lem t h
