-- ===== src/OcspCache/Freshness.antt =====
-- cache.go: the invariant of the cache, and that what it serves is what was stored, within the
-- freshness that the responder promised.
use qoltanba.Prelude.{
  ℕ, zero, suc, ◌+◌, ◌%◌, ◌^◌, ◌≤◌, ◌<◌, ◌≡◌, inl, inr, ltb, leb, none, some, Text, text_eq, Map,
  lookup, insert, delete, delete_if, IsUnique, lookup-insert, insert-IsUnique, lookup-delete,
  delete-IsUnique, lookup-delete_if, delete_if-IsUnique, length-delete, length, arith, Bool-cases,
  Option-cases, subst,
}
use qoltanba.OcspCache.Cache.{
  Entry, CachedEntry, Cache, oldest, key_of, evict_down, is_stale, evict, expiry, key, fetch, store,
}
use qoltanba.OcspCache.Eviction.{length-evict}

-- the second map is the first with entries left out
abbrev IsPart : Map CachedEntry → Map CachedEntry → Type 0
IsPart m m' =
    IsUnique m' × ((k : Text) (e : CachedEntry) → lookup k m' ≡ some e → lookup k m ≡ some e)

delete-IsPart : (k : Text) (m : Map CachedEntry) → IsUnique m → IsPart m (delete k m)
delete-IsPart k m u = (delete-IsUnique k m u, λ j e h. ground (arith, lookup-delete k j m u))

evict_down-IsPart :
    (n bound : ℕ) (m : Map CachedEntry) → IsUnique m → IsPart m (evict_down n bound m)
unfolding evict_down
evict_down-IsPart zero bound m u = (u, λ k e h. h)
evict_down-IsPart (suc n) bound m u = elim (Bool-cases (ltb bound (length m))) [
  | inr fits ↦ rw fits (u, λ k e h. h)
  | inl over ↦
      let o = key_of (oldest m none) in
      let (u', sub) = delete-IsPart o m u in
      let (u'', sub') = evict_down-IsPart n bound (delete o m) u' in
      rw over (u'', λ k e h. sub k e (sub' k e h))
]

evict-IsPart : (bound now : ℕ) (m : Map CachedEntry) → IsUnique m → IsPart m (evict bound now m)
unfolding evict
evict-IsPart bound now m u = elim (Bool-cases (leb (length m) bound)) [
  | inl fits ↦ rw fits (u, λ k e h. h)
  | inr over ↦
      let live = delete_if (is_stale now) m in
      let (u', sub) =
        evict_down-IsPart (length live) bound live (delete_if-IsUnique (is_stale now) m u) in
      rw over (
        u',
        λ k e h. let there = sub k e h in ground (arith, lookup-delete_if (is_stale now) k m u),
      )
]

-- keys are distinct, the cache is within its bound, no entry is newer than the counter, and no
-- entry outlives what the responder promised
pub record IsSound (c : Cache) : Type 0 where
  pub unique : IsUnique c.entries
  pub bounded : length c.entries ≤ c.cfg.max_entries
  pub room : 0 < c.cfg.max_entries
  pub ordered : (k : Text) (e : CachedEntry) → lookup k c.entries ≡ some e → e.seq ≤ c.seq
  pub honest :
      (k : Text) (e : CachedEntry) (nu : ℕ)
      → lookup k c.entries ≡ some e
      → e.value.next_update ≡ some nu
      → e.expires ≤ nu

module _ (digest : Text → Text) where
  -- `Store` keeps the cache sound, as long as its counter does not wrap around: within its bound
  -- whatever it evicts, and with no entry that outlives its answer's nextUpdate.
  pub store-IsSound :
      (c : Cache) (cert responder : Text) (v : Entry) (now : ℕ)
      → IsSound c
      → c.seq + 1 < 2 ^ 64
      → IsSound (store digest c cert responder v now)
  unfolding store
  store-IsSound c cert responder v now s wrap = elim (Bool-cases (ltb now (expiry c.cfg v now))) [
    | inr stale ↦ rw stale s
    | inl fresh ↦
        let k = key digest cert responder in
        let e : CachedEntry = record {
          value = v;
          expires = expiry c.cfg v now;
          seq = (c.seq + 1) % 2 ^ 64;
        } in
        let m = insert k e c.entries in
        let u = insert-IsUnique k e c.entries s.unique in
        let (u', sub) = evict-IsPart c.cfg.max_entries now m u in
        let next_seq : (c.seq + 1) % 2 ^ 64 ≡ c.seq + 1 = small (c.seq + 1) wrap in
        rw fresh (record {
          unique = u';
          bounded = length-evict c.cfg.max_entries now m u;
          room = s.room;
          ordered = λ j d h. elim (Bool-cases (text_eq k j)) [
            | inl same ↦ ground (arith, sub j d h, lookup-insert k j e c.entries)
            | inr other ↦ ground (arith, sub j d h, lookup-insert k j e c.entries, s.ordered j d)
          ];
          honest = λ j d nu h n. elim (Bool-cases (text_eq k j)) [
            | inl same ↦
                let here : e ≡ d = ground (arith, sub j d h, lookup-insert k j e c.entries) in
                subst (λ x. x.value.next_update ≡ some nu → x.expires ≤ nu) here
                  (expiry-promised c v now nu) n
            | inr other ↦
                s.honest j d nu (ground (arith, sub j d h, lookup-insert k j e c.entries)) n
          ];
        })
  ]
    where
      small : (n : ℕ) → n < 2 ^ 64 → n % 2 ^ 64 ≡ n
      small n h = omega arith

      expiry-promised :
          (c : Cache) (v : Entry) (now nu : ℕ) → v.next_update ≡ some nu → expiry c.cfg v now ≤ nu
      expiry-promised c v now nu h = unfold expiry in ground arith

  -- `Lookup` keeps a sound cache sound, and an answer that it serves is one whose nextUpdate, if it
  -- carries one, has not been reached.
  pub fetch-fresh :
      (c : Cache) (cert responder : Text) (now : ℕ)
      → IsSound c
      → IsSound (fetch digest c cert responder now).1
        × ((v : Entry) (nu : ℕ)
            → (fetch digest c cert responder now).0 ≡ some v
            → v.next_update ≡ some nu
            → now < nu)
  unfolding fetch is_stale
  fetch-fresh c cert responder now s =
      let k = key digest cert responder in
      elim (Option-cases (lookup k c.entries)) [
        | inl gone ↦
            rw (gone, fetch)
              (
                record {
                  unique = s.unique;
                  bounded = s.bounded;
                  room = s.room;
                  ordered = s.ordered;
                  honest = s.honest;
                },
                λ v nu h n. absurd (ground arith),
              )
        | inr (e, found) ↦ elim (Bool-cases (ltb now e.expires)) [
          | inr late ↦
              let (u, sub) = delete-IsPart k c.entries s.unique in
              let fewer = length-delete k c.entries e found in
              rw (found, fetch)
                (rw (late, is_stale)
                  (
                    record {
                      unique = u;
                      bounded = ground (arith, s.bounded);
                      room = s.room;
                      ordered = λ j d h. s.ordered j d (sub j d h);
                      honest = λ j d nu h n. s.honest j d nu (sub j d h) n;
                    },
                    λ v nu h n. absurd (ground arith),
                  ))
          | inl fresh ↦
              rw (found, fetch)
                (rw (fresh, is_stale)
                  (
                    record {
                      unique = s.unique;
                      bounded = s.bounded;
                      room = s.room;
                      ordered = s.ordered;
                      honest = s.honest;
                    },
                    λ v nu h n. ground (arith, s.honest k e nu found),
                  ))
        ]
      ]
