-- ===== src/Examples/Idempotency.antt =====
-- The calls of the idempotency cache on an empty cache, and on a full cache of one entry.
use qoltanba.Prelude.{◌≤◌, ◌⊎◌, ◌+◌, ◌+◌, ◌≡◌, refl, false, none, [], ◌∷◌, codes, text_eq, arith}
use qoltanba.Idempotency.Cache.{
  in_flight, Entry, Cache, execute, wait, replay, find, keep_front, register, begin, succeed, fail,
}
use qoltanba.Idempotency.Flight.{IsSound}
use qoltanba.Idempotency.Once.{Reach, Step, Reach-IsSound, begin-once, begin-runs_twice}

abbrev empty : Cache
empty = record { ttl = 100; bound = 1; lru = []; next_element = 0 }

abbrev running : Entry
running = record { element = 0; key = codes "k"; flight = in_flight }

abbrev busy : Cache
busy = record { ttl = 100; bound = 1; lru = running ∷ []; next_element = 1 }

empty-IsSound : IsSound empty
empty-IsSound = record { apart = tt; old = tt; bounded = omega arith; room = omega arith }

Reach-IsSound_example : IsSound (succeed (begin empty (codes "k") 5).1 0 (codes "r") 6)
Reach-IsSound_example =
    Reach-IsSound empty (succeed (begin empty (codes "k") 5).1 0 (codes "r") 6) empty-IsSound (
      Reach.next (Reach.next Reach.here (Step.began empty (codes "k") 5))
        (Step.succeeded (begin empty (codes "k") 5).1 0 (codes "r") 6))

begin-empty : begin empty (codes "k") 5 ≡ (execute 0, busy)
unfolding begin find register keep_front
begin-empty = refl

begin-once_example :
    (begin busy (codes "k") 7 ≡ (wait 0, busy))
    × ((6 + 100 ≤ 7)
        ⊎ ((begin (succeed busy 0 (codes "r") 6) (codes "k") 7).0 ≡ replay (codes "r")))
    × ((begin (fail busy 0) (codes "k") 7).0 ≡ execute 1)
begin-once_example = begin-once empty (codes "k") 5 0 busy 7 6 (codes "r") empty-IsSound begin-empty

unknown_key : find (codes "m") busy.lru ≡ none
unfolding find text_eq
unknown_key = refl

no_key : find (codes "k") [] ≡ none
unfolding find
no_key = refl

other_key : text_eq (codes "m") (codes "k") ≡ false
unfolding text_eq
other_key = refl

begin-runs_twice_example :
    (begin busy (codes "k") 5 ≡ (wait 0, busy))
    × ((begin (begin busy (codes "m") 5).1 (codes "k") 6).0
        ≡ execute (begin busy (codes "m") 5).1.next_element)
begin-runs_twice_example =
    begin-runs_twice busy (codes "k") (codes "m") 0 5 6 [] refl refl refl refl other_key no_key
      unknown_key
