-- ===== src/Idempotency/Sections.antt =====
-- cache.go: what each locked section of `Do` does to a sound cache.
use qoltanba.Prelude.{
  ℕ, ◌+◌, ◌<◌, ◌≡◌, refl, sym, ◌⊎◌, inl, inr, ltb, true, false, none, some, List, [], ◌∷◌, length,
  Text, text_eq_iff, is_empty, arith, Bool-cases, Option-cases, subst,
}
use qoltanba.Idempotency.Cache.{
  Flight, in_flight, completed, Entry, Cache, execute, find, remove, register, begin, succeed, fail,
}
use qoltanba.Idempotency.Flight.{
  IsFresh, IsApart, IsOld, IsSound, All-remove, All-set_flight, IsApart-remove, IsApart-set_flight,
  length-set_flight, length-remove, find-All, find-IsFresh, absent-IsFresh, renumbered,
  register-IsSound,
}

-- a call that executes has registered its key on entries that are apart from it
pub begin-register :
    (c : Cache) (k : Text) (now i : ℕ) (c' : Cache)
    → IsSound c
    → begin c k now ≡ (execute i, c')
    → (es : List Entry) × IsApart es
      × IsOld c.next_element es
      × IsFresh k c.next_element es
      × (register c k es ≡ (execute i, c'))
      × (is_empty k ≡ false)
unfolding begin
begin-register c k now i c' s h = elim (Bool-cases (is_empty k)) [
  | inl empty ↦ absurd (ground arith)
  | inr keyed ↦ elim (Option-cases (find k c.lru)) [
    | inl new ↦ (
      c.lru,
      s.apart,
      s.old,
      absent-IsFresh k c.next_element c.lru s.old new,
      ground arith,
      keyed,
    )
    | inr (e, found) ↦
        let left = remove e.element c.lru in
        let old = All-remove (λ d. d.element < c.next_element) e.element c.lru s.old in
        (
          left,
          IsApart-remove e.element c.lru s.apart,
          old,
          renumbered k e.element c.next_element left old (find-IsFresh k c.lru e s.apart found),
          expired e e.flight found refl keyed,
          keyed,
        )
  ]
]
  where
    expired :
        (e : Entry) (f : Flight)
        → find k c.lru ≡ some e
        → e.flight ≡ f
        → is_empty k ≡ false
        → register c k (remove e.element c.lru) ≡ (execute i, c')
    expired e in_flight found f keyed = absurd (unfold begin in ground arith)
    expired e (completed result t) found f keyed = unfold begin in ground arith

length-found :
    (k : Text) (es : List Entry) (e : Entry)
    → find k es ≡ some e
    → length (remove e.element es) + 1 ≡ length es
unfolding find remove
length-found k [] e h = absurd (ground arith)
length-found k (d ∷ es) e h = ground (arith, length-found k es e)

replayed-IsSound :
    (c : Cache) (k : Text) (e : Entry)
    → IsSound c
    → find k c.lru ≡ some e
    → IsSound (record c { lru = e ∷ remove e.element c.lru })
replayed-IsSound c k e s found =
    let left = remove e.element c.lru in
    let (number, at) = find-All (λ d. d.element < c.next_element) k c.lru e s.old found in
    let named : k ≡ e.key = ground (arith, text_eq_iff e.key k) in
    record {
      apart = (
        subst (λ x. IsFresh x e.element left) named (find-IsFresh k c.lru e s.apart found),
        IsApart-remove e.element c.lru s.apart,
      );
      old = (number, All-remove (λ d. d.element < c.next_element) e.element c.lru s.old);
      bounded = ground (arith, length-found k c.lru e found, s.bounded);
      room = s.room;
    }

-- the store after a call that finds an entry
begin-found :
    (c : Cache) (k : Text) (now : ℕ) (e : Entry) (f : Flight)
    → find k c.lru ≡ some e
    → e.flight ≡ f
    → is_empty k ≡ false
    → ((begin c k now).1 ≡ c)
      ⊎ (((begin c k now).1 ≡ record c { lru = e ∷ remove e.element c.lru })
          ⊎ ((begin c k now).1 ≡ (register c k (remove e.element c.lru)).1))
unfolding begin
begin-found c k now e in_flight found f keyed = inl (ground arith)
begin-found c k now e (completed result t) found f keyed = elim (Bool-cases (ltb now t)) [
  | inl alive ↦ inr (inl (ground arith))
  | inr over ↦ inr (inr (ground arith))
]

begin-bypasses : (c : Cache) (k : Text) (now : ℕ) → is_empty k ≡ true → (begin c k now).1 ≡ c
unfolding begin
begin-bypasses c k now empty = ground arith

begin-new :
    (c : Cache) (k : Text) (now : ℕ)
    → is_empty k ≡ false
    → find k c.lru ≡ none
    → (begin c k now).1 ≡ (register c k c.lru).1
unfolding begin
begin-new c k now keyed new = ground arith

pub begin-IsSound : (c : Cache) (k : Text) (now : ℕ) → IsSound c → IsSound (begin c k now).1
begin-IsSound c k now s = elim (Bool-cases (is_empty k)) [
  | inl empty ↦ subst IsSound (sym (begin-bypasses c k now empty)) s
  | inr keyed ↦ elim (Option-cases (find k c.lru)) [
    | inl new ↦ subst IsSound (sym (begin-new c k now keyed new)) (
        register-IsSound c k c.lru s.apart s.old (absent-IsFresh k c.next_element c.lru s.old new)
          s.room)
    | inr (e, found) ↦ elim (begin-found c k now e e.flight found refl keyed) [
      | inl same ↦ subst IsSound (sym same) s
      | inr (inl moved) ↦ subst IsSound (sym moved) (replayed-IsSound c k e s found)
      | inr (inr stored) ↦
          let left = remove e.element c.lru in
          let old = All-remove (λ d. d.element < c.next_element) e.element c.lru s.old in
          subst IsSound (sym stored) (
            register-IsSound c k left (IsApart-remove e.element c.lru s.apart) old
              (renumbered k e.element c.next_element left old
                (find-IsFresh k c.lru e s.apart found))
              s.room)
    ]
  ]
]

pub succeed-IsSound :
    (c : Cache) (i : ℕ) (result : Text) (now : ℕ) → IsSound c → IsSound (succeed c i result now)
unfolding succeed
succeed-IsSound c i result now s =
    let f = completed result (now + c.ttl) in
    record {
      apart = IsApart-set_flight i f c.lru s.apart;
      old = All-set_flight (λ d. d.element < c.next_element) i f c.lru (λ d p. p) s.old;
      bounded = ground (arith, length-set_flight i f c.lru, s.bounded);
      room = s.room;
    }

pub fail-IsSound : (c : Cache) (i : ℕ) → IsSound c → IsSound (fail c i)
unfolding fail
fail-IsSound c i s = record {
  apart = IsApart-remove i c.lru s.apart;
  old = All-remove (λ d. d.element < c.next_element) i c.lru s.old;
  bounded = ground (arith, length-remove i c.lru, s.bounded);
  room = s.room;
}
