-- ===== src/Qr/Store.antt =====
-- store.go: the in-memory store of sessions. Cloning a record needs no model.
use qoltanba.Prelude.{
  ℕ, ltb, if◌then◌else◌, Bool, true, not, none, some, Text, Map, lookup, insert, delete_if, length,
  ◌-◌, Result, ok, err,
}
use qoltanba.Qr.Session.{Session, Error, session_not_found, session_used}

abbrev pub Store : Type 0
Store = Map Session

-- `MemStore.Create`
unfoldable pub create : Store → Session → Store
unfolding insert
create m s = insert s.id s m

-- `MemStore.Get`
unfoldable pub get : Store → Text → Result Error Session
unfolding lookup
get m id = elim (lookup id m) [ none ↦ err session_not_found | some s ↦ ok s ]

-- `MemStore.Consume`
unfoldable pub consume : Store → Text → Result Error Session × Store
unfolding lookup insert
consume m id = elim (lookup id m) [
  | none ↦ (err session_not_found, m)
  | some s ↦
      if s.used
      then (err session_used, m)
      else let s' = record s { used = true } in (ok s', insert id s' m)
]

-- `MemStore.Save`
unfoldable pub save : Store → Session → Store
unfolding insert
save m s = insert s.id s m

-- `!s.ExpiresAt.After(now)`
unfoldable pub is_past : ℕ → Session → Bool
is_past now s = not (ltb now s.expires_at)

-- `MemStore.Reap`: the store that is left, and how many sessions went
unfoldable pub reap : Store → ℕ → Store × ℕ
unfolding is_past delete_if
reap m now = let m' = delete_if (is_past now) m in (m', length m - length m')
