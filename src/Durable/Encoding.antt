-- ===== src/Durable/Encoding.antt =====
-- A bucket that holds the encodings of a map's records, and what each transaction does to it.
use qoltanba.Prelude.{
  ◌+◌, ◌≡◌, ◌≢◌, refl, sym, ◌⊎◌, inl, inr, subst, Bool, true, false, Option, none, some, List, [],
  ◌∷◌, length, All, Text, text_eq, text_eq_iff, text_eq→eq, text_eq_refl, Map, lookup, insert,
  delete, delete_if, IsUnique, arith, Bool-cases,
}
use qoltanba.Durable.Bucket.{Bucket, put, expired_keys, delete_keys}

module _ {V R : Type 0} (encode : V → Option R) (decode : R → Option V) where
  -- the record can be encoded, reads back as it is, and is accepted under the key
  abbrev pub IsStorable : (Text → R → Bool) → Text → V → Type 0
  IsStorable accepts k v =
      (raw : R) × (encode v ≡ some raw) × (decode raw ≡ some v) × (accepts k raw ≡ true)

  abbrev pub Encodes : Bucket R → Map V → Type 0
  Encodes [] [] = Unit
  Encodes [] (_ ∷ _) = ⊥
  Encodes (_ ∷ _) [] = ⊥
  Encodes ((j, raw) ∷ b) ((k, v) ∷ m) = (j ≡ k) × (decode raw ≡ some v) × Encodes b m

  pub lookup-Encodes :
      (b : Bucket R) (m : Map V) (k : Text)
      → Encodes b m
      → ((lookup k b ≡ none) × (lookup k m ≡ none))
        ⊎ ((raw : R) × (v : V) × (lookup k b ≡ some raw)
            × (lookup k m ≡ some v)
            × (decode raw ≡ some v))
  unfolding lookup
  lookup-Encodes [] [] k h = inl (refl, refl)
  lookup-Encodes [] (_ ∷ _) k h = elim h [ ]
  lookup-Encodes (_ ∷ _) [] k h = elim h [ ]
  lookup-Encodes ((j, raw) ∷ b) ((i, v) ∷ m) k (e, d, h) = elim (Bool-cases (text_eq i k)) [
    | inl here ↦ inr (raw, v, ground arith, ground arith, d)
    | inr there ↦ elim (lookup-Encodes b m k h) [
      | inl (p, q) ↦ inl (ground arith, ground arith)
      | inr (raw', v', p, q, r) ↦ inr (raw', v', ground arith, ground arith, r)
    ]
  ]

  insert-Encodes :
      (b : Bucket R) (m : Map V) (k : Text) (raw : R) (v : V)
      → decode raw ≡ some v
      → Encodes b m
      → Encodes (insert k raw b) (insert k v m)
  unfolding insert
  insert-Encodes [] [] k raw v d h = (refl, d, tt)
  insert-Encodes [] (_ ∷ _) k raw v d h = elim h [ ]
  insert-Encodes (_ ∷ _) [] k raw v d h = elim h [ ]
  insert-Encodes ((j, raw') ∷ b) ((i, v') ∷ m) k raw v d (e, d', h) =
      elim (Bool-cases (text_eq i k)) [
        | inl here ↦
            let here' : text_eq j k ≡ true = ground arith in rw here (rw here' (refl, d, h))
        | inr there ↦
            let there' : text_eq j k ≡ false = ground arith in
            rw there (rw there' (e, d', insert-Encodes b m k raw v d h))
      ]

  pub delete-Encodes :
      (b : Bucket R) (m : Map V) (k : Text) → Encodes b m → Encodes (delete k b) (delete k m)
  unfolding delete
  delete-Encodes [] [] k h = tt
  delete-Encodes [] (_ ∷ _) k h = elim h [ ]
  delete-Encodes (_ ∷ _) [] k h = elim h [ ]
  delete-Encodes ((j, raw') ∷ b) ((i, v') ∷ m) k (e, d', h) = elim (Bool-cases (text_eq i k)) [
    | inl here ↦ let here' : text_eq j k ≡ true = ground arith in rw here (rw here' h)
    | inr there ↦
        let there' : text_eq j k ≡ false = ground arith in
        rw there (rw there' (e, d', delete-Encodes b m k h))
  ]

  -- a record that is put can be put, and then the bucket holds it
  pub put-Encodes :
      (accepts : Text → R → Bool) (b : Bucket R) (m : Map V) (k : Text) (v : V)
      → IsStorable accepts k v
      → Encodes b m
      → (b' : Bucket R) × (put encode decode accepts b k v ≡ some b') × Encodes b' (insert k v m)
  unfolding put
  put-Encodes accepts b m k v t h =
      let (raw, written, read, taken) = t in
      (insert k raw b, ground arith, insert-Encodes b m k raw v read h)

  delete_keys-skips :
      (ks : List Text) (k : Text) (raw : R) (b : Bucket R)
      → All (λ j. text_eq k j ≡ false) ks
      → delete_keys ks ((k, raw) ∷ b) ≡ (k, raw) ∷ delete_keys ks b
  unfolding delete_keys delete
  delete_keys-skips [] k raw b h = refl
  delete_keys-skips (j ∷ ks) k raw b h =
      ground (arith, h.0, delete_keys-skips ks k raw (delete j b) h.1)

  -- the keys that a sweep collects are keys of the map
  abbrev AreKeys : Map V → List Text → Type 0
  AreKeys m ks = All (λ j. lookup j m ≢ none) ks

  other_keys :
      (k : Text) (m : Map V) (ks : List Text)
      → lookup k m ≡ none
      → AreKeys m ks
      → All (λ j. text_eq k j ≡ false) ks
  other_keys k m [] u h = tt
  other_keys k m (j ∷ ks) u h = (ground (arith, text_eq_iff k j, h.0), other_keys k m ks u h.1)

  still_keys :
      (k : Text) (v : V) (m : Map V) (ks : List Text) → AreKeys m ks → AreKeys ((k, v) ∷ m) ks
  unfolding lookup
  still_keys k v m [] h = tt
  still_keys k v m (j ∷ ks) h = (ground (arith, h.0), still_keys k v m ks h.1)

  -- collecting the keys and then deleting them leaves the encoding of what the in-memory sweep leaves
  pub sweep-Encodes :
      (p : V → Bool) (b : Bucket R) (m : Map V)
      → IsUnique m
      → Encodes b m
      → (ks : List Text) × (expired_keys encode decode p b ≡ some ks)
        × Encodes (delete_keys ks b) (delete_if p m)
        × (length ks + length (delete_if p m) ≡ length m)
        × AreKeys m ks
  unfolding expired_keys delete_if delete_keys delete
  sweep-Encodes p [] [] u h = ([], refl, tt, refl, tt)
  sweep-Encodes p [] (_ ∷ _) u h = elim h [ ]
  sweep-Encodes p (_ ∷ _) [] u h = elim h [ ]
  sweep-Encodes p ((j, raw) ∷ b) ((k, v) ∷ m) u (e, d, h) =
      let (ks, collected, rest, counted, keys) = sweep-Encodes p b m u.1 h in
      let named : text_eq j j ≡ true = text_eq_refl j in
      let at_head : text_eq k k ≡ true = text_eq_refl k in
      elim (Bool-cases (p v)) [
        | inl old ↦ (
          j ∷ ks,
          ground arith,
          rw old (rw named rest),
          ground arith,
          (
            subst (λ t. lookup t ((k, v) ∷ m) ≢ none) (sym e) (unfold lookup in ground arith),
            still_keys k v m ks keys,
          ),
        )
        | inr live ↦
            let apart = other_keys k m ks u.0 keys in
            let apart' = subst (λ t. All (λ i. text_eq t i ≡ false) ks) (sym e) apart in
            (
              ks,
              ground arith,
              rw live (rw (delete_keys-skips ks j raw b apart') (e, d, rest)),
              ground arith,
              still_keys k v m ks keys,
            )
      ]

-- every entry of the map has the property
abbrev pub AllEntries : {V : Type 0} → (Text → V → Type 0) → Map V → Type 0
AllEntries P [] = Unit
AllEntries P ((k, v) ∷ m) = P k v × AllEntries P m

module _ {V : Type 0} (P : Text → V → Type 0) where
  pub lookup-AllEntries :
      (m : Map V) (k : Text) (v : V) → AllEntries P m → lookup k m ≡ some v → P k v
  unfolding lookup
  lookup-AllEntries [] k v h e = absurd (ground arith)
  lookup-AllEntries ((i, w) ∷ m) k v h e = elim (Bool-cases (text_eq i k)) [
    | inl here ↦
        let same : w ≡ v = ground arith in
        subst (λ x. P k x) same (subst (λ j. P j w) (text_eq→eq i k here) h.0)
    | inr there ↦ lookup-AllEntries m k v h.1 (ground arith)
  ]

  pub insert-AllEntries :
      (m : Map V) (k : Text) (v : V) → AllEntries P m → P k v → AllEntries P (insert k v m)
  unfolding insert
  insert-AllEntries [] k v h p = (p, tt)
  insert-AllEntries ((i, w) ∷ m) k v h p = elim (Bool-cases (text_eq i k)) [
    | inl here ↦ rw here (p, h.1)
    | inr there ↦ rw there (h.0, insert-AllEntries m k v h.1 p)
  ]

  pub delete_if-AllEntries :
      (p : V → Bool) (m : Map V) → AllEntries P m → AllEntries P (delete_if p m)
  unfolding delete_if
  delete_if-AllEntries p [] h = tt
  delete_if-AllEntries p ((k, v) ∷ m) h = elim (Bool-cases (p v)) [
    | inl old ↦ rw old (delete_if-AllEntries p m h.1)
    | inr live ↦ rw live (h.0, delete_if-AllEntries p m h.1)
  ]
