-- ===== src/Examples/OcspCache.antt =====
-- The cache operations on an empty cache of two entries.
use qoltanba.Prelude.{ℕ, ◌<◌, ◌≡◌, false, none, some, [], Text, codes, lookup, arith}
use qoltanba.OcspCache.Cache.{Entry, Cache, fetch, store}
use qoltanba.OcspCache.Freshness.{IsSound, store-IsSound, fetch-fresh}

abbrev empty : Cache
empty = record {
  cfg = record { ttl = 100; revoked_ttl = 1000; max_entries = 2 };
  entries = [];
  seq = 0;
  hits = 0;
  misses = 0;
  stapled = 0;
}

abbrev good_answer : Entry
good_answer = record {
  revoked = false;
  reason = [];
  revocation_time = none;
  this_update = some 10;
  next_update = some 60;
  produced_at = none;
  response = codes "R";
}

abbrev same_digest : Text → Text
same_digest t = t

empty-IsSound : IsSound empty
unfolding lookup
empty-IsSound = record {
  unique = tt;
  bounded = omega arith;
  room = omega arith;
  ordered = λ k e h. absurd (ground arith);
  honest = λ k e nu h. absurd (ground arith);
}

store-IsSound_example : IsSound (store same_digest empty (codes "C") (codes "U") good_answer 20)
store-IsSound_example =
    store-IsSound same_digest empty (codes "C") (codes "U") good_answer 20 empty-IsSound
      (omega arith)

fetch-fresh_example :
    IsSound (fetch same_digest empty (codes "C") (codes "U") 30).1
    × ((v : Entry) (nu : ℕ)
        → (fetch same_digest empty (codes "C") (codes "U") 30).0 ≡ some v
        → v.next_update ≡ some nu
        → 30 < nu)
fetch-fresh_example = fetch-fresh same_digest empty (codes "C") (codes "U") 30 empty-IsSound
