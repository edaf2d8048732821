-- ===== src/Idempotency/Once.antt =====
-- cache.go: concurrent calls of `Do`, and what a second call with the same key gets.
use qoltanba.Prelude.{
  ℕ, zero, suc, ◌+◌, ◌-◌, ◌<◌, ◌≤◌, ◌≡◌, ◌⊎◌, inl, inr, ltb, Bool-cases, refl, sym, true, false,
  none, some, List, [], ◌∷◌, ◌++◌, length, Text, text_eq, text_eq_refl, is_empty, arith, subst,
}
use qoltanba.Idempotency.Cache.{
  in_flight, Entry, Cache, execute, wait, replay, find, remove, keep_front, set_flight, register,
  begin, succeed, fail,
}
use qoltanba.Idempotency.Flight.{IsFresh, IsSound}
use qoltanba.Idempotency.Sections.{begin-register, begin-IsSound, succeed-IsSound, fail-IsSound}

-- one locked section of some caller of `Do`
pub data Step : Cache → Cache → Type 0 where
  began : (c : Cache) (k : Text) (now : ℕ) → Step c (begin c k now).1
  succeeded : (c : Cache) (i : ℕ) (result : Text) (now : ℕ) → Step c (succeed c i result now)
  failed : (c : Cache) (i : ℕ) → Step c (fail c i)

pub data Reach (c : Cache) : Cache → Type 0 where
  here : Reach c c
  next : {d e : Cache} → Reach c d → Step d e → Reach c e

-- However the calls of `Do` on a sound cache interleave, the cache stays within its bound, holds each key once, and
-- keeps its entries apart.
pub Reach-IsSound : (c d : Cache) → IsSound c → Reach c d → IsSound d
Reach-IsSound c d s here = s
Reach-IsSound c d s (next r (began e k now)) = begin-IsSound e k now (Reach-IsSound c e s r)
Reach-IsSound c d s (next r (succeeded e i result now)) =
    succeed-IsSound e i result now (Reach-IsSound c e s r)
Reach-IsSound c d s (next r (failed e i)) = fail-IsSound e i (Reach-IsSound c e s r)

keep_front-first :
    (n : ℕ) (e : Entry) (es : List Entry)
    → 0 < n
    → keep_front n (e ∷ es) ≡ e ∷ keep_front (n - 1) es
unfolding keep_front
keep_front-first zero e es h = absurd (ground arith)
keep_front-first (suc n) e es h = ground arith

find-keep_front :
    (k : Text) (i n : ℕ) (es : List Entry) → IsFresh k i es → find k (keep_front n es) ≡ none
unfolding find keep_front
find-keep_front k i n [] h = refl
find-keep_front k i zero (e ∷ es) h = refl
find-keep_front k i (suc n) (e ∷ es) h = ground (arith, h.0, find-keep_front k i n es h.1)

-- the cache after a call that executes: its entry is in front, and no other has its key
registered :
    (c : Cache) (k : Text) (now i : ℕ) (c' : Cache)
    → IsSound c
    → begin c k now ≡ (execute i, c')
    → (es : List Entry) × (c'.lru ≡ record { element = i; key = k; flight = in_flight } ∷ es)
      × (find k es ≡ none)
      × (is_empty k ≡ false)
      × (c'.ttl ≡ c.ttl)
unfolding register
registered c k now i c' s h =
    let (es, apart, old, fresh, e, keyed) = begin-register c k now i c' s h in
    let first : Entry = record { element = c.next_element; key = k; flight = in_flight } in
    (
      keep_front (c.bound - 1) es,
      ground (arith, keep_front-first c.bound first es s.room),
      find-keep_front k c.next_element (c.bound - 1) es fresh,
      keyed,
      ground arith,
    )

-- When a call on a sound cache is told to execute, a second call with the same key, with no other
-- call of the cache in between, waits for the first while it runs. The same second call right after
-- the first has succeeded gets its result without executing, until the end of its lifetime; and
-- right after the first has failed it executes anew.
pub begin-once :
    (c : Cache) (k : Text) (now i : ℕ) (c' : Cache) (later t : ℕ) (result : Text)
    → IsSound c
    → begin c k now ≡ (execute i, c')
    → (begin c' k later ≡ (wait i, c'))
      × ((t + c.ttl ≤ later) ⊎ ((begin (succeed c' i result t) k later).0 ≡ replay result))
      × ((begin (fail c' i) k later).0 ≡ execute c'.next_element)
unfolding begin succeed fail set_flight remove find register
begin-once c k now i c' later t result s h =
    let (es, list, absent, keyed, same_ttl) = registered c k now i c' s h in
    (
      ground (arith, text_eq_refl k),
      elim (Bool-cases (ltb later (t + c.ttl))) [
        | inr over ↦ inl (ground arith)
        | inl alive ↦ inr (ground (arith, text_eq_refl k))
      ],
      ground (arith, text_eq_refl k),
    )

keep_front-append : (es rest : List Entry) → keep_front (length es) (es ++ rest) ≡ es
unfolding keep_front
keep_front-append [] [] = refl
keep_front-append [] (d ∷ rest) = refl
keep_front-append (e ∷ es) rest = ground (arith, keep_front-append es rest)

-- A flaw of the eviction: it takes entries in flight as well. Where the least recently used entry of
-- a full cache is in flight, a call with a new key evicts it, and the next call with its key executes
-- a second time while the first execution still runs.
pub begin-runs_twice :
    (c : Cache) (k other : Text) (i now later : ℕ) (front : List Entry)
    → c.lru ≡ front ++ record { element = i; key = k; flight = in_flight } ∷ []
    → c.bound ≡ length front + 1
    → is_empty k ≡ false
    → is_empty other ≡ false
    → text_eq other k ≡ false
    → find k front ≡ none
    → find other c.lru ≡ none
    → (begin c k now ≡ (wait i, c))
      × ((begin (begin c other now).1 k later).0 ≡ execute (begin c other now).1.next_element)
unfolding begin register
begin-runs_twice c k other i now later front list full keyed keyed' apart absent new =
    let last : Entry = record { element = i; key = k; flight = in_flight } in
    let e : Entry = record { element = c.next_element; key = other; flight = in_flight } in
    let seen : find k c.lru ≡ some last =
      subst (λ es. find k es ≡ some last) (sym list)
        (find-last k front last absent (text_eq_refl k)) in
    let kept : keep_front c.bound (e ∷ c.lru) ≡ e ∷ front =
      ground (arith, keep_front-append (e ∷ front) (last ∷ [])) in
    let gone : find k (e ∷ front) ≡ none = unfold find in ground arith in
    (ground arith, ground arith)
  where
    find-last :
        (k : Text) (es : List Entry) (e : Entry)
        → find k es ≡ none
        → text_eq e.key k ≡ true
        → find k (es ++ e ∷ []) ≡ some e
    find-last k [] e h s = unfold find in ground arith
    find-last k (d ∷ es) e h s = unfold find in ground (arith, find-last k es e)
