-- ===== src/Jobs/Manager.antt =====
-- manager.go: the scheduler. A method that changes the manager returns the new one; the clock, the
-- random id and the outcome of the executor are arguments. A worker's `run` is cut where the source
-- lets other goroutines in: pick up, mark as running, finish. Deliveries of the webhook are
-- recorded in the order in which they are started.
use qoltanba.Prelude.{
  ℕ, ltb, leb, ◌==◌, ◌+◌, if◌then◌else◌, Bool, not, ◌&&◌, ◌||◌, ◌*◌, Option, none, some, List, [],
  ◌∷◌, ◌++◌, Text, codes, is_empty, length, Map, lookup, insert, delete, Result, ok, err,
}
use qoltanba.Jobs.Job.{
  Status, queued, running, succeeded, failed, canceled, terminal, ItemError, Job, View, view, Error,
  busy, too_large, invalid_op, not_ready,
}
use qoltanba.Jobs.Store.{Store, create, get, save, remove, is_queued}

-- `Config`; a number that is not positive is 0
pub record Config : Type 0 where
  pub workers : ℕ
  pub queue_size : ℕ
  pub ttl : ℕ
  pub max_input_bytes : ℕ
  pub reap_interval : ℕ

abbrev pub minute : ℕ
minute = 60000000000

abbrev or_default : ℕ → ℕ → ℕ
or_default n d = if n == 0 then d else n

abbrev at_most : ℕ → ℕ → ℕ
at_most n d = if ltb d n then d else n

-- `Config.withDefaults`
unfoldable pub with_defaults : Config → Config
with_defaults c =
    let ttl = or_default c.ttl (60 * minute) in
    record c {
      workers = or_default c.workers 1;
      queue_size = or_default c.queue_size 128;
      ttl = ttl;
      reap_interval = or_default c.reap_interval (at_most ttl (5 * minute));
    }

-- `idemRef`
pub record IdemRef : Type 0 where
  pub id : Text
  pub at : ℕ

pub record Manager : Type 0 where
  pub store : Store
  pub cfg : Config
  pub queue : List Text  -- the channel, which holds at most `cfg.queue_size` ids
  pub idem_keys : Map IdemRef
  pub sent : List (Text × View)

abbrev pub idem_max : ℕ
idem_max = 8192

-- `setExpiry`
unfoldable pub set_expiry : ℕ → Job → ℕ → Job
set_expiry ttl j from = if ltb 0 ttl then record j { expires_at = some (from + ttl) } else j

-- `fireWebhook`, where a webhook is configured
unfoldable pub fire_webhook : Manager → Job → Manager
unfolding view
fire_webhook m j =
    if is_empty j.callback_url
    then m
    else record m { sent = m.sent ++ (j.callback_url, view j) ∷ [] }

abbrev pub new_job : Text → Text → Text → Text → ℕ → Job
new_job id op request callback_url now = record {
  id = id;
  op = op;
  status = queued;
  submitted_at = now;
  started_at = none;
  finished_at = none;
  expires_at = none;
  error = none;
  request = request;
  result = [];
  callback_url = callback_url;
}

-- the end of `submit`: the id is sent to the queue, or the record is rolled back
unfoldable pub enqueue : Manager → Job → Result Error View × Manager
enqueue m j =
    if ltb (length m.queue) m.cfg.queue_size
    then (ok (view j), record m { queue = m.queue ++ j.id ∷ [] })
    else (err busy, record m { store = remove m.store j.id })

-- `Manager.submit`
unfoldable pub submit :
    (Text → Bool) → Manager → Text → Text → Text → Text → ℕ → Result Error View × Manager
submit valid_op m id op request callback_url now =
    if not (valid_op op)
    then (err invalid_op, m)
    else if ltb 0 m.cfg.max_input_bytes && ltb m.cfg.max_input_bytes (length request)
    then (err too_large, m)
    else (let j = new_job id op request callback_url now in
        elim (create m.store j) [
          | err e ↦ (err e, m)
          | ok store ↦ enqueue (record m { store = store }) j
        ])

-- the loop of `rememberKeyLocked`: the oldest mapping, the first one among equals
unfoldable pub oldest_key : Map IdemRef → Option (Text × ℕ) → Option (Text × ℕ)
oldest_key [] best = best
oldest_key ((k, ref) ∷ rest) none = oldest_key rest (some (k, ref.at))
oldest_key ((k, ref) ∷ rest) (some (b, t)) =
    oldest_key rest (some (if is_empty b || ltb ref.at t then (k, ref.at) else (b, t)))

-- `rememberKeyLocked` up to the write: the oldest mapping makes room
unfoldable pub make_room : Map IdemRef → Map IdemRef
unfolding oldest_key delete
make_room keys =
    if leb idem_max (length keys)
    then delete (elim (oldest_key keys none) [ none ↦ [] | some (k, _) ↦ k ]) keys
    else keys

-- `rememberKeyLocked`
unfoldable pub remember_key : Map IdemRef → Text → Text → ℕ → Map IdemRef
remember_key keys key id now = insert key (record { id = id; at = now }) (make_room keys)

-- `SubmitIdempotent` once no live job is known for the key
unfoldable pub submit_fresh :
    (Text → Bool) → Manager → Text → Text → Text → Text → Text → ℕ → Result Error View × Manager
submit_fresh valid_op m id op request callback_url key now =
    let (r, m') = submit valid_op m id op request callback_url now in
    elim r [
      | err e ↦ (err e, m')
      | ok v ↦ (ok v, record m' { idem_keys = remember_key m'.idem_keys key v.id now })
    ]

-- `SubmitIdempotent`
unfoldable pub submit_idempotent :
    (Text → Bool) → Manager → Text → Text → Text → Text → Text → ℕ → Result Error View × Manager
unfolding lookup delete
submit_idempotent valid_op m id op request callback_url key now =
    if is_empty key
    then submit valid_op m id op request callback_url now
    else elim (lookup key m.idem_keys) [
      | none ↦ submit_fresh valid_op m id op request callback_url key now
      | some ref ↦ elim (get m.store ref.id) [
        | ok j ↦ (ok (view j), m)
        | err _ ↦
            submit_fresh valid_op (record m { idem_keys = delete key m.idem_keys }) id op request
              callback_url key now
      ]
    ]

-- `Manager.Result`
unfoldable pub result : Manager → Text → Result Error (Text × Status)
unfolding get terminal
result m id = elim (get m.store id) [
  | err e ↦ err e
  | ok j ↦ if not (terminal j.status) then err not_ready else ok (j.result, j.status)
]

-- the job that `Cancel` saves
abbrev pub canceled_job : Manager → Job → ℕ → Job
canceled_job m j now =
    set_expiry m.cfg.ttl (record j { status = canceled; finished_at = some now; request = [] }) now

-- `Cancel` from the save of its copy on
abbrev pub save_canceled : Manager → Job → ℕ → Manager
save_canceled m j now =
    fire_webhook (record m { store = save m.store (canceled_job m j now) }) (canceled_job m j now)

-- whether `submit` refuses the request for its size
abbrev pub is_too_large : Manager → Text → Bool
is_too_large m request = ltb 0 m.cfg.max_input_bytes && ltb m.cfg.max_input_bytes (length request)

-- `Manager.Cancel`
unfoldable pub cancel : Manager → Text → ℕ → Result Error (Unit {0}) × Manager
unfolding get terminal save set_expiry fire_webhook
cancel m id now = elim (get m.store id) [
  | err e ↦ (err e, m)
  | ok j ↦ if terminal j.status then (ok tt, m) else (ok tt, save_canceled m j now)
]

-- what the executor gives: an output (`none` where it cannot be encoded), a canceled context, or
-- an error, rendered by `errorView`
pub data Outcome : Type 0 where
  output : Option Text → Outcome
  context_canceled : Outcome
  failure : ItemError → Outcome

-- `run` up to the first check: the worker's copy of the job, if it is to be run
unfoldable pub pick_up : Manager → Text → Option Job
unfolding get
pick_up m id = elim (get m.store id) [
  | err _ ↦ none
  | ok j ↦ if is_queued j.status then some j else none
]

-- `run`: the copy is marked as running and saved
unfoldable pub start : Manager → Job → ℕ → Job × Manager
unfolding save
start m j now =
    let j' = record j { status = running; started_at = some now } in
    (j', record m { store = save m.store j' })

-- the fields that the outcome sets on a finished job
unfoldable pub settle : Job → Outcome → Job
settle j (output (some raw)) = record j { status = succeeded; result = raw }
settle j (output none) = record j {
  status = failed;
  error =
      some (record { kind = codes "internal"; code = ""; message = "encode result"; action = "" });
}
settle j (failure e) = record j { status = failed; error = some e }
settle j context_canceled = j

-- the job that `run` saves at the end
unfoldable pub ended : ℕ → Job → Outcome → ℕ → Job
unfolding set_expiry settle
ended ttl j out now =
    settle (set_expiry ttl (record j { finished_at = some now; request = [] }) now) out

-- `run` from the return of the executor on; the job is the worker's own copy. After a canceled
-- context nothing is saved.
unfoldable pub finish : Manager → Job → Outcome → ℕ → Manager
unfolding save
finish m j context_canceled now = m
finish m j out now =
    let j' = ended m.cfg.ttl j out now in fire_webhook (record m { store = save m.store j' }) j'

-- `Manager.run` with no other goroutine in between
unfoldable pub run : Manager → Text → Outcome → ℕ → ℕ → Manager
run m id out started finished = elim (pick_up m id) [
  | none ↦ m
  | some j ↦ let (j', m') = start m j started in finish m' j' out finished
]
