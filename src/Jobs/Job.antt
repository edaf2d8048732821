-- ===== src/Jobs/Job.antt =====
-- jobs.go: the persisted record of a job and its client-safe projection. A pointer that may be nil
-- is an Option, a nil payload the empty list; copies of a record need no model.
use Prim.Native.String.{String}
use qoltanba.Prelude.{ℕ, Bool, true, false, Option, Text}

pub data Status : Type 0 where
  queued running succeeded failed canceled : Status

-- `Status.Terminal`
unfoldable pub terminal : Status → Bool
terminal succeeded = true
terminal failed = true
terminal canceled = true
terminal queued = false
terminal running = false

-- `core.BatchItemError`
pub record ItemError : Type 0 where
  pub kind : Text
  pub code : String
  pub message : String
  pub action : String

pub record Job : Type 0 where
  pub id : Text
  pub op : Text
  pub status : Status
  pub submitted_at : ℕ
  pub started_at : Option ℕ
  pub finished_at : Option ℕ
  pub expires_at : Option ℕ
  pub error : Option ItemError
  pub request : Text
  pub result : Text
  pub callback_url : Text

pub record View : Type 0 where
  pub id : Text
  pub op : Text
  pub status : Status
  pub submitted_at : ℕ
  pub started_at : Option ℕ
  pub finished_at : Option ℕ
  pub expires_at : Option ℕ
  pub error : Option ItemError

-- `Job.View`
unfoldable pub view : Job → View
view j = record {
  id = j.id;
  op = j.op;
  status = j.status;
  submitted_at = j.submitted_at;
  started_at = j.started_at;
  finished_at = j.finished_at;
  expires_at = j.expires_at;
  error = j.error;
}

pub data Error : Type 0 where
  not_found exists busy too_large invalid_op not_ready : Error
