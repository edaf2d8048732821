-- ===== src/Idempotency/Cache.antt =====
-- cache.go: `Do`, cut where it releases its lock: it begins a call, runs the work, and finishes it
-- with a result or an error (a panic is an error). An entry is known by its list element, here a
-- number; the index by key is the search of the list, which holds each key once.
use qoltanba.Prelude.{
  ℕ, zero, suc, ◌+◌, ltb, ◌==◌, if◌then◌else◌, Option, none, some, List, [], ◌∷◌, Text, text_eq,
  is_empty,
}

-- whether `done` is closed, and the result and its end where it is
pub data Flight : Type 0 where
  in_flight : Flight
  completed : Text → ℕ → Flight

-- `entry`, in its list element
pub record Entry : Type 0 where
  pub element : ℕ
  pub key : Text
  pub flight : Flight

-- `Cache`
pub record Cache : Type 0 where
  pub ttl : ℕ
  pub bound : ℕ  -- `max`
  pub lru : List Entry  -- the most recently used entry first
  pub next_element : ℕ

-- what `Do` does next: run the work, wait for the call of another, replay a result, or run the work
-- outside the cache
pub data Decision : Type 0 where
  execute wait : ℕ → Decision
  replay : Text → Decision
  bypass : Decision

-- `byKey[key]`
unfoldable pub find : Text → List Entry → Option Entry
find k [] = none
find k (e ∷ es) = if text_eq e.key k then some e else find k es

-- `removeLocked`
unfoldable pub remove : ℕ → List Entry → List Entry
remove i [] = []
remove i (e ∷ es) = if e.element == i then es else e ∷ remove i es

-- `evictLocked`: entries go from the back until the bound is met
unfoldable pub keep_front : ℕ → List Entry → List Entry
keep_front n [] = []
keep_front zero (e ∷ es) = []
keep_front (suc n) (e ∷ es) = e ∷ keep_front n es

-- the outcome is written into the entry, if it is still in the list
unfoldable pub set_flight : ℕ → Flight → List Entry → List Entry
set_flight i f [] = []
set_flight i f (e ∷ es) =
    if e.element == i then record e { flight = f } ∷ es else e ∷ set_flight i f es

-- `Do` from the registration to the release of the lock, on the entries that are left
unfoldable pub register : Cache → Text → List Entry → Decision × Cache
unfolding keep_front
register c k es =
    let e : Entry = record { element = c.next_element; key = k; flight = in_flight } in
    (
      execute c.next_element,
      record c { lru = keep_front c.bound (e ∷ es); next_element = c.next_element + 1 },
    )

-- `Do` up to the work
unfoldable pub begin : Cache → Text → ℕ → Decision × Cache
unfolding find remove register
begin c k now = if is_empty k then (bypass, c) else elim (find k c.lru) [
  | none ↦ register c k c.lru
  | some e ↦ elim e.flight [
    | in_flight ↦ (wait e.element, c)
    | completed data_ expires ↦
        if ltb now expires
        then (replay data_, record c { lru = e ∷ remove e.element c.lru })
        else register c k (remove e.element c.lru)
  ]
]

-- `Do` after work that succeeds
unfoldable pub succeed : Cache → ℕ → Text → ℕ → Cache
unfolding set_flight
succeed c i result now = record c { lru = set_flight i (completed result (now + c.ttl)) c.lru }

-- `Do` after work that fails
unfoldable pub fail : Cache → ℕ → Cache
unfolding remove
fail c i = record c { lru = remove i c.lru }
