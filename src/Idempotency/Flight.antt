-- ===== src/Idempotency/Flight.antt =====
-- cache.go: the entries of the cache stay apart and within its bound, and a key's work runs once,
-- as long as its entry is not evicted.
use qoltanba.Prelude.{
  ℕ, zero, suc, ◌+◌, ◌≤◌, ◌<◌, ◌≡◌, refl, inl, inr, ◌==◌, true, false, none, some, List, [], ◌∷◌,
  length, All, Text, text_eq, text_eq_iff, arith, Bool-cases, subst,
}
use qoltanba.Idempotency.Cache.{
  Flight, in_flight, Entry, Cache, find, remove, keep_front, set_flight, register,
}

-- no entry of the list has the key or the element
abbrev pub IsFresh : Text → ℕ → List Entry → Type 0
IsFresh k i es = All (λ d. (text_eq d.key k ≡ false) × ((d.element == i) ≡ false)) es

abbrev pub IsApart : List Entry → Type 0
IsApart [] = Unit
IsApart (e ∷ es) = IsFresh e.key e.element es × IsApart es

abbrev pub IsOld : ℕ → List Entry → Type 0
IsOld n es = All (λ d. d.element < n) es

-- keys and elements are distinct, elements are numbered below the next one, and the bound is kept
pub record IsSound (c : Cache) : Type 0 where
  pub apart : IsApart c.lru
  pub old : IsOld c.next_element c.lru
  pub bounded : length c.lru ≤ c.bound
  pub room : 0 < c.bound

pub All-remove {κ} : (P : Entry → Type κ) (i : ℕ) (es : List Entry) → All P es → All P (remove i es)
unfolding remove
All-remove P i [] h = tt
All-remove P i (e ∷ es) h = elim (Bool-cases (e.element == i)) [
  | inl same ↦ rw same h.1
  | inr other ↦ rw other (h.0, All-remove P i es h.1)
]

All-keep_front {κ} :
    (P : Entry → Type κ) (n : ℕ) (es : List Entry) → All P es → All P (keep_front n es)
unfolding keep_front
All-keep_front P n [] h = tt
All-keep_front P zero (e ∷ es) h = tt
All-keep_front P (suc n) (e ∷ es) h = (h.0, All-keep_front P n es h.1)

pub All-set_flight {κ} :
    (P : Entry → Type κ) (i : ℕ) (f : Flight) (es : List Entry)
    → ((e : Entry) → P e → P (record e { flight = f }))
    → All P es
    → All P (set_flight i f es)
unfolding set_flight
All-set_flight P i f [] k h = tt
All-set_flight P i f (e ∷ es) k h = elim (Bool-cases (e.element == i)) [
  | inl same ↦ rw same (k e h.0, h.1)
  | inr other ↦ rw other (h.0, All-set_flight P i f es k h.1)
]

pub IsApart-remove : (i : ℕ) (es : List Entry) → IsApart es → IsApart (remove i es)
unfolding remove
IsApart-remove i [] h = tt
IsApart-remove i (e ∷ es) h = elim (Bool-cases (e.element == i)) [
  | inl same ↦ rw same h.1
  | inr other ↦ rw other (
    All-remove (λ d. (text_eq d.key e.key ≡ false) × ((d.element == e.element) ≡ false)) i es h.0,
    IsApart-remove i es h.1,
  )
]

IsApart-keep_front : (n : ℕ) (es : List Entry) → IsApart es → IsApart (keep_front n es)
unfolding keep_front
IsApart-keep_front n [] h = tt
IsApart-keep_front zero (e ∷ es) h = tt
IsApart-keep_front (suc n) (e ∷ es) h = (
  All-keep_front (λ d. (text_eq d.key e.key ≡ false) × ((d.element == e.element) ≡ false)) n es h.0,
  IsApart-keep_front n es h.1,
)

pub IsApart-set_flight :
    (i : ℕ) (f : Flight) (es : List Entry) → IsApart es → IsApart (set_flight i f es)
unfolding set_flight
IsApart-set_flight i f [] h = tt
IsApart-set_flight i f (e ∷ es) h = elim (Bool-cases (e.element == i)) [
  | inl same ↦ rw same h
  | inr other ↦ rw other (
    All-set_flight (λ d. (text_eq d.key e.key ≡ false) × ((d.element == e.element) ≡ false)) i f es
        (λ d p. p) h.0,
    IsApart-set_flight i f es h.1,
  )
]

length-keep_front : (n : ℕ) (es : List Entry) → length (keep_front n es) ≤ n
unfolding keep_front
length-keep_front n [] = omega arith
length-keep_front zero (e ∷ es) = omega arith
length-keep_front (suc n) (e ∷ es) = ground (arith, length-keep_front n es)

pub length-set_flight :
    (i : ℕ) (f : Flight) (es : List Entry) → length (set_flight i f es) ≡ length es
unfolding set_flight
length-set_flight i f [] = refl
length-set_flight i f (e ∷ es) = ground (arith, length-set_flight i f es)

pub length-remove : (i : ℕ) (es : List Entry) → length (remove i es) ≤ length es
unfolding remove
length-remove i [] = omega arith
length-remove i (e ∷ es) = ground (arith, length-remove i es)

-- what is found satisfies what all do
pub find-All {κ} :
    (P : Entry → Type κ) (k : Text) (es : List Entry) (e : Entry)
    → All P es
    → find k es ≡ some e
    → P e × (text_eq e.key k ≡ true)
unfolding find
find-All P k [] e a h = absurd (ground arith)
find-All P k (d ∷ es) e a h = elim (Bool-cases (text_eq d.key k)) [
  | inl same ↦ let here : d ≡ e = ground arith in (subst P here a.0, ground arith)
  | inr other ↦ find-All P k es e a.1 (ground arith)
]

-- without the entry that is found, the list has no entry of the key, nor of the element
pub find-IsFresh :
    (k : Text) (es : List Entry) (e : Entry)
    → IsApart es
    → find k es ≡ some e
    → IsFresh k e.element (remove e.element es)
unfolding find remove
find-IsFresh k [] e a h = absurd (ground arith)
find-IsFresh k (d ∷ es) e a h = elim (Bool-cases (text_eq d.key k)) [
  | inl same ↦
      let here : d ≡ e = ground arith in
      let at : (d.element == e.element) ≡ true = ground arith in
      let named : d.key ≡ k = ground (arith, text_eq_iff d.key k) in
      rw at
        (subst (λ x. IsFresh k x.element es) here (subst (λ t. IsFresh t d.element es) named a.0))
  | inr other ↦
      let apart =
        find-All (λ x. (text_eq x.key d.key ≡ false) × ((x.element == d.element) ≡ false)) k es e
          a.0 (ground arith) in
      let elsewhere : (d.element == e.element) ≡ false = ground (arith, apart.0) in
      rw elsewhere ((other, elsewhere), find-IsFresh k es e a.1 (ground arith))
]

-- where no entry has the key, the new element is fresh for it
pub absent-IsFresh :
    (k : Text) (n : ℕ) (es : List Entry) → IsOld n es → find k es ≡ none → IsFresh k n es
unfolding find
absent-IsFresh k n [] o h = tt
absent-IsFresh k n (e ∷ es) o h =
    ((ground arith, ground (arith, o.0)), absent-IsFresh k n es o.1 (ground arith))

pub renumbered :
    (k : Text) (i n : ℕ) (es : List Entry) → IsOld n es → IsFresh k i es → IsFresh k n es
renumbered k i n [] o h = tt
renumbered k i n (e ∷ es) o h = ((h.0.0, ground (arith, o.0)), renumbered k i n es o.1 h.1)

older : (n : ℕ) (es : List Entry) → IsOld n es → IsOld (n + 1) es
older n [] h = tt
older n (e ∷ es) h = (omega (arith, h.0), older n es h.1)

pub register-IsSound :
    (c : Cache) (k : Text) (es : List Entry)
    → IsApart es
    → IsOld c.next_element es
    → IsFresh k c.next_element es
    → 0 < c.bound
    → IsSound (register c k es).1
unfolding register
register-IsSound c k es a o f room =
    let e : Entry = record { element = c.next_element; key = k; flight = in_flight } in
    record {
      apart = IsApart-keep_front c.bound (e ∷ es) (f, a);
      old =
          All-keep_front (λ d. d.element < c.next_element + 1) c.bound (e ∷ es)
            (omega arith, older c.next_element es o);
      bounded = length-keep_front c.bound (e ∷ es);
      room = room;
    }
