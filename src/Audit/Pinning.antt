-- ===== src/Audit/Pinning.antt =====
-- log.go: what a journal's head says about the journal.
use mathlib.Core.List.{Memᴰ}
use qoltanba.Prelude.{
  ℕ, ◌≡◌, refl, sym, ap, ◌∙◌, Bool, true, List, [], ◌∷◌, ◌++◌, append_assoc, map, length,
  length-append, Text, text_eq→eq, arith,
}
use qoltanba.Audit.Log.{
  Entry, genesis_hash, Line, blank, garbled, written, successor, nl, broken, hash_input, hash_of,
  verify_from, verify,
}

-- the entries of a journal, without its blank lines
abbrev pub entries_of : List Line → List Entry
entries_of [] = []
entries_of (blank ∷ ls) = entries_of ls
entries_of (garbled ∷ ls) = entries_of ls
entries_of (written e ∷ ls) = e ∷ entries_of ls

same_suffix : (a b p q : Text) → a ++ p ≡ b ++ q → length p ≡ length q → p ≡ q
same_suffix [] [] p q h l = h
same_suffix [] (y ∷ b) p q h l = absurd (ground (arith, ap length h, length-append b q))
same_suffix (x ∷ a) [] p q h l = absurd (ground (arith, ap length h, length-append a p))
same_suffix (x ∷ a) (y ∷ b) p q h l = same_suffix a b p q (ground arith) l

same_start : (p q r : Text) → p ++ r ≡ q ++ r → length p ≡ length q → p ≡ q
same_start [] [] r h l = refl
same_start [] (y ∷ q) r h l = absurd (ground arith)
same_start (x ∷ p) [] r h l = absurd (ground arith)
same_start (x ∷ p) (y ∷ q) r h l =
    let rest = same_start p q r (ground arith) (ground arith) in ground arith

module _ (hash : Text → Text) (decimal format_time : ℕ → Text) where
  -- each entry hashes to what it claims and links to the one before it
  abbrev IsLinked : Text → List Entry → Type 0
  IsLinked prev [] = Unit
  IsLinked prev (e ∷ es) =
      (e.prev_hash ≡ prev)
      × (e.hash_value ≡ hash_of hash decimal format_time e)
      × IsLinked e.hash_value es

  abbrev last_hash : Text → List Entry → Text
  last_hash prev [] = prev
  last_hash prev (e ∷ es) = last_hash e.hash_value es

  verify_from-IsLinked :
      (check : Entry → Bool) (prev : Text) (expected n : ℕ) (ls : List Line)
      → (verify_from hash decimal format_time check prev expected n ls).intact ≡ true
      → IsLinked prev (entries_of ls)
        × ((verify_from hash decimal format_time check prev expected n ls).head
            ≡ last_hash prev (entries_of ls))
  unfolding verify_from broken
  verify_from-IsLinked check prev expected n [] h = (tt, refl)
  verify_from-IsLinked check prev expected n (blank ∷ ls) h =
      verify_from-IsLinked check prev expected n ls h
  verify_from-IsLinked check prev expected n (garbled ∷ ls) h = absurd (ground arith)
  verify_from-IsLinked check prev expected n (written e ∷ ls) h =
      let v = hash_of hash decimal format_time e in
      let (linked, head) =
        verify_from-IsLinked check e.hash_value (successor expected) (successor n) ls
          (ground arith) in
      (
        (
          text_eq→eq e.prev_hash prev (ground arith),
          text_eq→eq e.hash_value v (ground arith),
          linked,
        ),
        ground arith,
      )

  abbrev before_prev : Entry → Text
  before_prev e =
      decimal e.seq
      ++ nl
      ++ format_time e.at
      ++ nl
      ++ e.op
      ++ nl
      ++ e.actor
      ++ nl
      ++ e.subject
      ++ nl
      ++ e.signer
      ++ nl
      ++ e.outcome
      ++ nl
      ++ e.detail
      ++ nl

  hash_input-splits :
      (e : Entry) → hash_input hash decimal format_time e ≡ before_prev e ++ (e.prev_hash ++ nl)
  unfolding hash_input
  hash_input-splits e = simp append_assoc

  same_prev :
      (d e : Entry)
      → hash_input hash decimal format_time d ≡ hash_input hash decimal format_time e
      → length d.prev_hash ≡ length e.prev_hash
      → d.prev_hash ≡ e.prev_hash
  same_prev d e h l =
      same_start d.prev_hash e.prev_hash nl
        (same_suffix (before_prev d) (before_prev e) (d.prev_hash ++ nl) (e.prev_hash ++ nl)
          (sym (hash_input-splits d) ∙ h ∙ hash_input-splits e)
          (ground (arith, length-append d.prev_hash nl, length-append e.prev_hash nl)))
        l

  -- the hash has one length, and does not collide between the entries of two journals
  abbrev pub HasFixedLength : Type 0
  HasFixedLength = (s t : Text) → length (hash s) ≡ length (hash t)

  abbrev pub HasNoCollision : List Entry → List Entry → Type 0
  HasNoCollision ds es =
      (d e : Entry)
      → Memᴰ d ds
      → Memᴰ e es
      → hash_of hash decimal format_time d ≡ hash_of hash decimal format_time e
      → hash_input hash decimal format_time d ≡ hash_input hash decimal format_time e

  IsLinked-pins :
      (p q : Text) (ds es : List Entry)
      → HasFixedLength
      → HasNoCollision ds es
      → length ds ≡ length es
      → length p ≡ length q
      → IsLinked p ds
      → IsLinked q es
      → last_hash p ds ≡ last_hash q es
      → (map (hash_input hash decimal format_time) ds
          ≡ map (hash_input hash decimal format_time) es)
        × (p ≡ q)
  IsLinked-pins p q [] [] fixed apart l k a b h = (refl, h)
  IsLinked-pins p q [] (e ∷ es) fixed apart l k a b h = absurd (ground arith)
  IsLinked-pins p q (d ∷ ds) [] fixed apart l k a b h = absurd (ground arith)
  IsLinked-pins p q (d ∷ ds) (e ∷ es) fixed apart l k (pd, vd, ad) (pe, ve, be) h =
      let same_length : length d.hash_value ≡ length e.hash_value =
        ap length vd ∙ hash_lengths d e fixed ∙ sym (ap length ve) in
      let (rest, same) =
        IsLinked-pins d.hash_value e.hash_value ds es fixed
          (λ x y m n. apart x y (Memᴰ.tail m) (Memᴰ.tail n)) (ground arith) same_length ad be h in
      let inputs = apart d e (Memᴰ.head refl) (Memᴰ.head refl) (sym vd ∙ same ∙ ve) in
      let prev = same_prev d e inputs (ap length pd ∙ k ∙ sym (ap length pe)) in
      (cons_both inputs rest, sym pd ∙ prev ∙ pe)
    where
      hash_lengths :
          (x y : Entry)
          → HasFixedLength
          → length (hash_of hash decimal format_time x)
            ≡ length (hash_of hash decimal format_time y)
      hash_lengths x y f = unfold hash_of in f _ _

      cons_both : {x y : Text} {xs ys : List Text} → x ≡ y → xs ≡ ys → x ∷ xs ≡ y ∷ ys
      cons_both h k = ground arith

  -- The head pins the journal: two journals that verify, with as many entries and the same head,
  -- hold the same hashed texts in the same order, provided that all hashes are of one length and
  -- that the hash does not collide between their entries.
  pub verify-pins :
      (check check' : Entry → Bool) (ls ls' : List Line)
      → HasFixedLength
      → HasNoCollision (entries_of ls) (entries_of ls')
      → length (entries_of ls) ≡ length (entries_of ls')
      → (verify hash decimal format_time check ls).intact ≡ true
      → (verify hash decimal format_time check' ls').intact ≡ true
      → (verify hash decimal format_time check ls).head
        ≡ (verify hash decimal format_time check' ls').head
      → map (hash_input hash decimal format_time) (entries_of ls)
        ≡ map (hash_input hash decimal format_time) (entries_of ls')
  unfolding verify
  verify-pins check check' ls ls' fixed apart l a b h =
      let (linked, head) = verify_from-IsLinked check genesis_hash 1 0 ls a in
      let (linked', head') = verify_from-IsLinked check' genesis_hash 1 0 ls' b in
      (IsLinked-pins genesis_hash genesis_hash (entries_of ls) (entries_of ls') fixed apart l refl
        linked linked' (sym head ∙ h ∙ head')).0
