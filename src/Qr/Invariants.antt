-- ===== src/Qr/Invariants.antt =====
-- orchestrator.go: what a change of one session preserves.
use qoltanba.Prelude.{
  ◌≡◌, subst, inl, inr, Bool, true, none, some, Text, text_eq, text_eq_iff, text_eq_refl, lookup,
  insert, lookup-insert, insert-IsUnique, lookup-delete_if, delete_if, delete_if-IsUnique, arith,
  Option-cases, Bool-cases,
}
use qoltanba.Qr.Session.{terminal, Session}
use qoltanba.Qr.Store.{Store}
use qoltanba.Qr.Effects.{IsSettled, IsWell, Effect, kept, changed}

pub insert-IsWell :
    (m : Store) (id : Text) (s : Session)
    → IsWell m
    → s.id ≡ id
    → IsSettled s
    → IsWell (insert id s m)
insert-IsWell m id s w named done = record {
  unique = insert-IsUnique id s m w.unique;
  keyed = λ k t found. elim (Bool-cases (text_eq id k)) [
    | inl same ↦ ground (arith, lookup-insert id k s m, text_eq_iff id k)
    | inr other ↦ w.keyed k t (ground (arith, lookup-insert id k s m))
  ];
  settled = λ k t found. elim (Bool-cases (text_eq id k)) [
    | inl same ↦ let e : s ≡ t = ground (arith, lookup-insert id k s m) in subst IsSettled e done
    | inr other ↦ w.settled k t (ground (arith, lookup-insert id k s m))
  ];
}

pub delete_if-IsWell : (m : Store) (p : Session → Bool) → IsWell m → IsWell (delete_if p m)
delete_if-IsWell m p w = record {
  unique = delete_if-IsUnique p m w.unique;
  keyed = λ k t found. w.keyed k t (kept_before k t found);
  settled = λ k t found. w.settled k t (kept_before k t found);
}
  where
    kept_before : (k : Text) (t : Session) → lookup k (delete_if p m) ≡ some t → lookup k m ≡ some t
    kept_before k t found = elim (Option-cases (lookup k m)) [
      | inl unknown ↦ absurd (ground (arith, lookup-delete_if p k m w.unique))
      | inr (s, stored) ↦ ground (arith, lookup-delete_if p k m w.unique)
    ]

pub Effect-IsWell : (m m' : Store) → IsWell m → Effect m m' → IsWell m'
Effect-IsWell m m' w kept = w
Effect-IsWell m m' w (changed id s s' found named free lasting fits) =
    insert-IsWell m id s' w named fits

-- a session that is used and has ended is left alone
pub Effect-final :
    (m m' : Store) (id : Text) (s : Session)
    → lookup id m ≡ some s
    → s.used ≡ true
    → terminal s.status ≡ true
    → Effect m m'
    → lookup id m' ≡ some s
Effect-final m m' id s found used over kept = found
Effect-final m m' id s found used over (changed k t t' there named free lasting fits) =
    elim (Bool-cases (text_eq k id)) [
      | inr other ↦ ground (arith, lookup-insert k id t' m)
      | inl same ↦
          let e : t ≡ s = ground (arith, text_eq_iff k id) in
          elim free [ inl unused ↦ absurd (ground arith) | inr alive ↦ absurd (ground arith) ]
    ]

pub Effect-unknown :
    (m m' : Store) (id : Text) → lookup id m ≡ none → Effect m m' → lookup id m' ≡ none
Effect-unknown m m' id gone kept = gone
Effect-unknown m m' id gone (changed k t t' there named free lasting fits) =
    ground (arith, text_eq_iff k id, lookup-insert k id t' m)

-- no session that could still be signed stands under the id
abbrev pub IsSpent : Text → Store → Type 0
IsSpent id m = (s : Session) → lookup id m ≡ some s → s.used ≡ true

pub Effect-IsSpent : (m m' : Store) (id : Text) → IsSpent id m → Effect m m' → IsSpent id m'
Effect-IsSpent m m' id spent kept s found = spent s found
Effect-IsSpent m m' id spent (changed k t t' there named free lasting fits) s found =
    elim (Bool-cases (text_eq k id)) [
      | inr other ↦ spent s (ground (arith, lookup-insert k id t' m))
      | inl same ↦
          let e : t' ≡ s = ground (arith, lookup-insert k id t' m) in
          let known : lookup id m ≡ some t = ground (arith, text_eq_iff k id) in
          subst (λ x. x.used ≡ true) e (lasting (spent t known))
    ]

pub insert-IsSpent :
    (id : Text) (s : Session) (m : Store) → s.used ≡ true → IsSpent id (insert id s m)
insert-IsSpent id s m used t found =
    let e : s ≡ t = ground (arith, lookup-insert id id s m, text_eq_refl id) in
    subst (λ x. x.used ≡ true) e used
