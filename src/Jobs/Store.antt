-- ===== src/Jobs/Store.antt =====
-- memstore.go: the in-memory store of jobs.
use qoltanba.Prelude.{
  ℕ, ltb, if◌then◌else◌, Bool, true, false, not, ◌&&◌, Option, none, some, List, [], ◌∷◌, Text, Map,
  lookup, insert, delete, delete_if, length, ◌-◌, Result, ok, err,
}
use qoltanba.Jobs.Job.{Status, queued, running, terminal, Job, Error, not_found, exists}

abbrev pub Store : Type 0
Store = Map Job

-- `MemStore.Create`
unfoldable pub create : Store → Job → Result Error Store
unfolding lookup insert
create m j = elim (lookup j.id m) [ some _ ↦ err exists | none ↦ ok (insert j.id j m) ]

-- `MemStore.Get`
unfoldable pub get : Store → Text → Result Error Job
unfolding lookup
get m id = elim (lookup id m) [ none ↦ err not_found | some j ↦ ok j ]

-- `MemStore.Save`
unfoldable pub save : Store → Job → Store
unfolding insert
save m j = insert j.id j m

-- `MemStore.Delete`
unfoldable pub remove : Store → Text → Store
unfolding delete
remove m id = delete id m

abbrev pub requeue_status : Status → Status
requeue_status running = queued
requeue_status s = s

abbrev pub is_queued : Status → Bool
is_queued queued = true
is_queued _ = false

-- `MemStore.Recover`: the store with running jobs queued again, and the ids of the queued jobs
unfoldable pub recover : Store → Store × List Text
recover [] = ([], [])
recover ((k, j) ∷ m) =
    let (m', ids) = recover m in
    let j' = record j { status = requeue_status j.status } in
    ((k, j') ∷ m', if is_queued j'.status then j'.id ∷ ids else ids)

abbrev pub is_past : ℕ → Option ℕ → Bool
is_past now none = false
is_past now (some t) = not (ltb now t)

-- the test of `MemStore.Reap`
unfoldable pub is_reapable : ℕ → Job → Bool
unfolding terminal
is_reapable now j = terminal j.status && is_past now j.expires_at

-- `MemStore.Reap`: the store that is left, and how many jobs went
unfoldable pub reap : Store → ℕ → Store × ℕ
unfolding is_reapable delete_if
reap m now = let m' = delete_if (is_reapable now) m in (m', length m - length m')
