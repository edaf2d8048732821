-- ===== src/Challenge/Store.antt =====
-- store.go: an issued challenge and the in-memory store. Cloning a record needs no model.
use qoltanba.Prelude.{
  ℕ, ltb, if◌then◌else◌, Bool, true, not, none, some, List, Text, Map, lookup, insert, delete_if,
  length, ◌-◌, Result, ok, err,
}

pub record Challenge : Type 0 where
  pub id : Text
  pub nonce : Text
  pub purpose : Text
  pub meta : List (Text × Text)
  pub created_at : ℕ
  pub expires_at : ℕ
  pub used : Bool

-- `ErrNotFound`, `ErrExpired`, `ErrUsed`, and the failures of what `Confirm` and `Issue` call
pub data Error : Type 0 where
  not_found expired already_used no_randomness : Error
  verify_failed check_failed check_inconclusive : Error

abbrev pub Store : Type 0
Store = Map Challenge

-- `MemStore.Create`
unfoldable pub create : Store → Challenge → Store
unfolding insert
create m c = insert c.id c m

-- `MemStore.Consume`
unfoldable pub consume : Store → Text → Result Error Challenge × Store
unfolding lookup insert
consume m id = elim (lookup id m) [
  | none ↦ (err not_found, m)
  | some c ↦
      if c.used
      then (err already_used, m)
      else let c' = record c { used = true } in (ok c', insert id c' m)
]

-- the test of `MemStore.Reap`
unfoldable pub is_past : ℕ → Challenge → Bool
is_past now c = not (ltb now c.expires_at)

-- `MemStore.Reap`: the store that is left, and how many challenges went
unfoldable pub reap : Store → ℕ → Store × ℕ
unfolding is_past delete_if
reap m now = let m' = delete_if (is_past now) m in (m', length m - length m')
