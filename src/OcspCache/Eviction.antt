-- ===== src/OcspCache/Eviction.antt =====
-- cache.go: what `evictLocked` removes.
use qoltanba.Prelude.{
  ℕ, zero, suc, ◌+◌, ◌≤◌, ◌<◌, ◌≡◌, inl, inr, ltb, false, none, some, [], ◌∷◌, Text, text_eq,
  text_eq_iff, text_eq_refl, Map, lookup, delete, delete_if, IsUnique, lookup-delete,
  delete-IsUnique, lookup-delete_if, delete_if-IsUnique, length-delete, length, arith, Bool-cases,
}
use qoltanba.OcspCache.Cache.{CachedEntry, oldest, key_of, evict_down, is_stale, evict}

-- the entry under the key, and none came in before it
abbrev pub IsOldest : Map CachedEntry → Text → Type 0
IsOldest m k =
    (e : CachedEntry) × (lookup k m ≡ some e)
    × ((j : Text) (d : CachedEntry) → lookup j m ≡ some d → e.seq ≤ d.seq)

oldest-from :
    (b : Text) (e : CachedEntry) (m : Map CachedEntry)
    → IsUnique ((b, e) ∷ m)
    → IsOldest ((b, e) ∷ m) (key_of (oldest m (some (b, e.seq))))
unfolding oldest lookup
oldest-from b e [] u = (e, ground (arith, text_eq_refl b), λ j d h. ground arith)
oldest-from b e ((k, d) ∷ m) u = elim (Bool-cases (ltb d.seq e.seq)) [
  | inl newer ↦
      let (f, found, least) = oldest-from k d m u.1 in
      let o = key_of (oldest m (some (k, d.seq))) in
      let at : d.seq < e.seq = ground arith in
      let le : f.seq ≤ d.seq = least k d (ground (arith, text_eq_refl k)) in
      (
        f,
        ground (arith, text_eq_iff b o),
        λ j g h. elim (Bool-cases (text_eq b j)) [
          | inl same ↦ ground arith
          | inr other ↦ ground (arith, least j g)
        ],
      )
  | inr older ↦
      let (f, found, least) = oldest-from b e m (ground arith) in
      let o = key_of (oldest m (some (b, e.seq))) in
      let le : f.seq ≤ e.seq = least b e (ground (arith, text_eq_refl b)) in
      (
        f,
        ground (arith, text_eq_iff k o, text_eq_iff b o, text_eq_iff b k),
        λ j g h. elim (Bool-cases (text_eq k j)) [
          | inl same ↦ ground (arith, text_eq_iff k j, text_eq_iff b j)
          | inr other ↦ ground (arith, least j g)
        ],
      )
]

oldest-IsOldest :
    (m : Map CachedEntry) → 0 < length m → IsUnique m → IsOldest m (key_of (oldest m none))
unfolding oldest
oldest-IsOldest [] h u = absurd (ground arith)
oldest-IsOldest ((k, e) ∷ m) h u = oldest-from k e m u

pub length-evict_down :
    (n bound : ℕ) (m : Map CachedEntry)
    → IsUnique m
    → length m ≤ n + bound
    → length (evict_down n bound m) ≤ bound
unfolding evict_down
length-evict_down zero bound m u le = omega arith
length-evict_down (suc n) bound m u le = elim (Bool-cases (ltb bound (length m))) [
  | inr fits ↦ ground arith
  | inl over ↦
      let k = key_of (oldest m none) in
      let (e, found, least) = oldest-IsOldest m (ground arith) u in
      ground (
        arith,
        length-delete k m e found,
        length-evict_down n bound (delete k m) (delete-IsUnique k m u),
      )
]

-- every other entry came in before this one
abbrev pub IsNewest : Map CachedEntry → Text → CachedEntry → Type 0
IsNewest m k e =
    (lookup k m ≡ some e)
    × ((j : Text) (d : CachedEntry) → text_eq j k ≡ false → lookup j m ≡ some d → d.seq < e.seq)

another_key :
    (m : Map CachedEntry) (k : Text)
    → IsUnique m
    → 1 < length m
    → (j : Text) × (d : CachedEntry) × (text_eq j k ≡ false) × (lookup j m ≡ some d)
unfolding lookup
another_key [] k u h = absurd (ground arith)
another_key ((a, d) ∷ []) k u h = absurd (ground arith)
another_key ((a, d) ∷ (b, f) ∷ m) k u h = elim (Bool-cases (text_eq a k)) [
  | inr other ↦ (a, d, other, ground (arith, text_eq_refl a))
  | inl same ↦ (
    b,
    f,
    ground (arith, text_eq_iff a k, text_eq_iff b k),
    ground (arith, text_eq_refl b, text_eq_iff a b, text_eq_iff b a),
  )
]

pub evict_down-IsNewest :
    (n bound : ℕ) (m : Map CachedEntry) (k : Text) (e : CachedEntry)
    → IsUnique m
    → 0 < bound
    → IsNewest m k e
    → lookup k (evict_down n bound m) ≡ some e
unfolding evict_down
evict_down-IsNewest zero bound m k e u b h = h.0
evict_down-IsNewest (suc n) bound m k e u b (found, newest) =
    elim (Bool-cases (ltb bound (length m))) [
      | inr fits ↦ ground arith
      | inl over ↦
          let o = key_of (oldest m none) in
          let (f, at, least) = oldest-IsOldest m (ground arith) u in
          let (j, d, other, there) = another_key m k u (ground arith) in
          let older : f.seq < e.seq = ground (arith, least j d there, newest j d other there) in
          let apart : text_eq o k ≡ false = elim (Bool-cases (text_eq o k)) [
            | inr no_ ↦ no_
            | inl same ↦ absurd (ground (arith, text_eq_iff o k))
          ] in
          let kept : lookup k (delete o m) ≡ some e = ground (arith, lookup-delete o k m u) in
          let rest =
            evict_down-IsNewest n bound (delete o m) k e (delete-IsUnique o m u) b
              (kept, λ i g apart' h. newest i g apart' (ground (arith, lookup-delete o i m u))) in
          ground arith
    ]

-- the loop ends within the bound, whatever it starts from
pub length-evict :
    (bound now : ℕ) (m : Map CachedEntry) → IsUnique m → length (evict bound now m) ≤ bound
unfolding evict
length-evict bound now m u =
    let live = delete_if (is_stale now) m in
    ground
      (arith, length-evict_down (length live) bound live (delete_if-IsUnique (is_stale now) m u))

pub evict-IsNewest :
    (bound now : ℕ) (m : Map CachedEntry) (k : Text) (e : CachedEntry)
    → IsUnique m
    → 0 < bound
    → now < e.expires
    → IsNewest m k e
    → lookup k (evict bound now m) ≡ some e
unfolding evict is_stale
evict-IsNewest bound now m k e u b fresh (found, newest) =
    let live = delete_if (is_stale now) m in
    let kept : lookup k live ≡ some e = ground (arith, lookup-delete_if (is_stale now) k m u) in
    let rest =
      evict_down-IsNewest (length live) bound live k e (delete_if-IsUnique (is_stale now) m u) b (
        kept,
        λ j d other h. newest j d other (ground (arith, lookup-delete_if (is_stale now) j m u)),
      ) in
    ground arith
