-- ===== src/Jobs/Recovery.antt =====
-- memstore.go: what recovery and reaping do to each job.
use mathlib.Core.List.{Memᴰ}
use qoltanba.Prelude.{
  ℕ, ◌+◌, ◌≡◌, refl, sym, ◌∙◌, ◌↔◌, ◌⊎◌, inl, inr, if◌then◌else◌, true, Option, none, some, List,
  [], ◌∷◌, length, Text, text_eq, text_eq_iff, text_eq→eq, lookup, IsUnique, lookup-delete_if,
  length-delete_if, arith, Bool-cases,
}
use qoltanba.Jobs.Job.{queued, running, Job}
use qoltanba.Jobs.Store.{Store, recover, requeue_status, is_queued, is_reapable, reap}

-- every job stands under its own id
abbrev pub IsKeyed : Store → Type 0
IsKeyed [] = Unit
IsKeyed ((k, j) ∷ m) = (j.id ≡ k) × IsKeyed m

-- a running job is queued again, and any other stays as it is
abbrev pub requeued : Option Job → Option Job
requeued none = none
requeued (some j) = elim j.status [ running ↦ some (record j { status = queued }) | _ ↦ some j ]

requeue_status_lem :
    (j : Job) → some (record j { status = requeue_status j.status }) ≡ requeued (some j)
requeue_status_lem j = ground arith

lookup-recover : (id : Text) (m : Store) → lookup id (recover m).0 ≡ requeued (lookup id m)
unfolding lookup recover
lookup-recover id [] = refl
lookup-recover id ((k, j) ∷ m) = ground (arith, lookup-recover id m, requeue_status_lem j)

Memᴰ-cases : {a x : Text} {xs : List Text} → Memᴰ a (x ∷ xs) → (a ≡ x) ⊎ Memᴰ a xs
Memᴰ-cases (Memᴰ.head e) = inl e
Memᴰ-cases (Memᴰ.tail m) = inr m

-- the ids of one round: that of the job, if it is queued then, before those of the rest
abbrev listed : Job → List Text → List Text
listed j ids = if is_queued (requeue_status j.status) then j.id ∷ ids else ids

listed-cases :
    {id : Text} (j : Job) (ids : List Text)
    → Memᴰ id (listed j ids)
    → ((id ≡ j.id) × (requeue_status j.status ≡ queued)) ⊎ Memᴰ id ids
listed-cases j ids h = elim (Bool-cases (is_queued (requeue_status j.status))) [
  | inl q ↦ elim (Memᴰ-cases (rw q at h)) [ inl e ↦ inl (e, ground arith) | inr m ↦ inr m ]
  | inr q ↦ inr (rw q at h)
]

listed-tail : {id : Text} (j : Job) (ids : List Text) → Memᴰ id ids → Memᴰ id (listed j ids)
listed-tail j ids h = elim (Bool-cases (is_queued (requeue_status j.status))) [
  | inl q ↦ rw q (Memᴰ.tail h)
  | inr q ↦ rw q h
]

recover-listed :
    (id : Text) (m : Store)
    → IsUnique m
    → IsKeyed m
    → Memᴰ id (recover m).1
    → (j : Job) × (lookup id (recover m).0 ≡ some j) × (j.status ≡ queued)
unfolding recover lookup
recover-listed id [] u k h = elim h [ ]
recover-listed id ((i, j) ∷ m) u k h = elim (listed-cases j (recover m).1 h) [
  | inl (e, q) ↦
      (record j { status = requeue_status j.status }, ground (arith, text_eq_iff i id), q)
  | inr rest ↦
      let (j', found, q) = recover-listed id m u.1 k.1 rest in
      (j', ground (arith, text_eq_iff i id, lookup-recover id m), q)
]

listed-recover :
    (id : Text) (m : Store) (j : Job)
    → IsKeyed m
    → lookup id (recover m).0 ≡ some j
    → j.status ≡ queued
    → Memᴰ id (recover m).1
unfolding recover lookup
listed-recover id [] j k h q = absurd (ground arith)
listed-recover id ((i, j') ∷ m) j k h q = elim (Bool-cases (text_eq i id)) [
  | inr other ↦ listed-tail j' (recover m).1 (listed-recover id m j k.1 (ground arith) q)
  | inl here ↦
      let now_queued : is_queued (requeue_status j'.status) ≡ true = ground arith in
      rw now_queued (Memᴰ.head (sym (k.0 ∙ text_eq→eq i id here)))
]

-- After recovery every job stands as before, but that a running one is queued again; and, in a
-- store with distinct keys that are the jobs' ids, the ids that are returned for the queue are
-- exactly those of the jobs that are then queued.
pub recover-queues :
    (m : Store) (id : Text)
    → IsUnique m
    → IsKeyed m
    → (lookup id (recover m).0 ≡ requeued (lookup id m))
      × (Memᴰ id (recover m).1
          ↔ ((j : Job) × (lookup id (recover m).0 ≡ some j) × (j.status ≡ queued)))
recover-queues m id u k = (
  lookup-recover id m,
  (recover-listed id m u k, λ (j, found, q). listed-recover id m j k found q),
)

-- In a store with distinct keys, reaping deletes exactly the terminal jobs whose expiry is at or before the instant, keeps every
-- other job as it is, and counts what it deleted.
pub reap-lookup :
    (m : Store) (now : ℕ) (id : Text)
    → IsUnique m
    → (lookup id (reap m now).0
        ≡ elim (lookup id m) [ none ↦ none | some j ↦ if is_reapable now j then none else some j ])
      × (length (reap m now).0 + (reap m now).1 ≡ length m)
unfolding reap
reap-lookup m now id u =
    (lookup-delete_if (is_reapable now) id m u, omega (arith, length-delete_if (is_reapable now) m))
