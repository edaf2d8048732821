-- ===== src/Durable/Bucket.antt =====
-- What the bbolt stores of internal/challenge, internal/jobs, internal/multisign and internal/qr have
-- in common. A bucket holds byte strings, whose type `R` is left open; `encode` and `decode` stand for
-- encoding/json between records and byte strings, and fail with `none`; `accepts` says which keys and
-- values bbolt's `Put` takes (a key that is blank or too large, or a value that is too large, is an error). A transaction that fails changes nothing.
use qoltanba.Prelude.{
  if◌then◌else◌, Bool, Option, none, some, List, [], ◌∷◌, Text, Map, lookup, insert, delete, Result,
  ok, err,
}

abbrev pub Bucket : Type 0 → Type 0
Bucket R = Map R

-- an error of the flow, or of the encoding
pub data Fault {ℓ} (E : Type ℓ) : Type ℓ where
  flow : E → Fault E
  unreadable unwritable : Fault E

abbrev pub as_fault {ℓ} : {E A : Type ℓ} → Result E A → Result (Fault E) A
as_fault (ok a) = ok a
as_fault (err e) = err (flow e)

-- `tx.Bucket(…).Delete` for each of the keys
unfoldable pub delete_keys : {R : Type 0} → List Text → Bucket R → Bucket R
unfolding delete
delete_keys [] b = b
delete_keys (k ∷ ks) b = delete_keys ks (delete k b)

module _ {V R : Type 0} (encode : V → Option R) (decode : R → Option V)
    (accepts : Text → R → Bool) where
  -- `json.Marshal` and `Put`, either of which may fail
  unfoldable pub put : Bucket R → Text → V → Option (Bucket R)
  unfolding insert
  put b k v = elim (encode v) [
    | none ↦ none
    | some raw ↦ if accepts k raw then some (insert k raw b) else none
  ]

module _ {V R : Type 0} (encode : V → Option R) (decode : R → Option V) where
  -- `Get` and `json.Unmarshal`, with the flow's error for a key that is not there
  unfoldable pub fetch : {E : Type 0} → E → Bucket R → Text → Result (Fault E) V
  unfolding lookup
  fetch e b k = elim (lookup k b) [
    | none ↦ err (flow e)
    | some raw ↦ elim (decode raw) [ none ↦ err unreadable | some v ↦ ok v ]
  ]

  -- the `ForEach` of a `Reap`: the keys whose record passes the test, or `none` where one cannot be
  -- read
  unfoldable pub expired_keys : (V → Bool) → Bucket R → Option (List Text)
  expired_keys p [] = some []
  expired_keys p ((k, raw) ∷ b) = elim (decode raw) [
    | none ↦ none
    | some v ↦ elim (expired_keys p b) [ none ↦ none | some ks ↦ some (if p v then k ∷ ks else ks) ]
  ]
