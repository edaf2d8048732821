-- ===== src/Audit/Chain.antt =====
-- log.go: the chain that `Append` writes is the one that `Verify` accepts and `Open` resumes, and
-- what breaks or escapes it.
use qoltanba.Prelude.{
  ℕ, ◌+◌, ◌^◌, ◌<◌, ◌≡◌, ◌≢◌, refl, sym, ap, ◌∙◌, Bool, true, false, Option, none, some, List, [],
  ◌∷◌, ◌++◌, append_assoc, Text, text_eq_refl, arith, subst,
}
use qoltanba.Audit.Log.{
  Entry, Event, genesis_hash, Line, blank, garbled, written, Log, works, sync_fails, successor, nl,
  broken, hash_input, hash_of, sealed, commit, append, verify_from, verify, last_from, open_log,
}

module _ (hash : Text → Text) (decimal format_time : ℕ → Text) where
  -- the journal verifies, and the log's head is the journal's
  pub record IsChained (check : Entry → Bool) (l : Log) : Type 0 where
    pub intact : (verify hash decimal format_time check l.journal).intact ≡ true
    pub count : (verify hash decimal format_time check l.journal).entries ≡ l.seq
    pub head : (verify hash decimal format_time check l.journal).head ≡ l.prev_hash

  -- the entry follows on this head
  abbrev IsNext : (Entry → Bool) → Text → ℕ → Entry → Type 0
  IsNext check prev seq e =
      (e.seq ≡ successor seq)
      × (e.prev_hash ≡ prev)
      × (e.hash_value ≡ hash_of hash decimal format_time e)
      × (check e ≡ true)

  verify_from-append :
      (check : Entry → Bool) (prev : Text) (n : ℕ) (ls : List Line) (e : Entry)
      → (verify_from hash decimal format_time check prev (successor n) n ls).intact ≡ true
      → IsNext check
          (verify_from hash decimal format_time check prev (successor n) n ls).head
          (verify_from hash decimal format_time check prev (successor n) n ls).entries
          e
      → verify_from hash decimal format_time check prev (successor n) n (ls ++ written e ∷ [])
        ≡ record {
          entries = e.seq;
          broken_at = 0;
          reason = none;
          head = e.hash_value;
          intact = true;
        }
  unfolding verify_from broken
  verify_from-append check prev n [] e h (s, p, v, c) =
      ground (arith, text_eq_refl prev, text_eq_refl e.hash_value)
  verify_from-append check prev n (blank ∷ ls) e h next_ =
      verify_from-append check prev n ls e h next_
  verify_from-append check prev n (garbled ∷ ls) e h next_ = absurd (ground arith)
  verify_from-append check prev n (written d ∷ ls) e h next_ =
      ground (arith, verify_from-append check d.hash_value (successor n) ls e)

  -- the entry that is sealed follows on the head, whatever signature it then gets
  sealed-IsNext :
      (check : Entry → Bool) (l : Log) (ev : Event) (now : ℕ) (s : Text)
      → check (record (sealed hash decimal format_time l ev now) { signature = s }) ≡ true
      → IsNext check l.prev_hash l.seq
          (record (sealed hash decimal format_time l ev now) { signature = s })
  unfolding sealed hash_of hash_input
  sealed-IsNext check l ev now s c = (refl, refl, refl, c)

  -- the signature that the log puts on an entry: none without a signer, else what the signer gives
  abbrev pub IsSignature : Option (ℕ → Text → Option Text) → Entry → Text → Type 0
  IsSignature none e s = s ≡ []
  IsSignature (some sign) e s = sign e.seq e.hash_value ≡ some s

  commit-works :
      (l : Log) (e : Entry)
      → l.stuck ≡ false
      → commit l e works ≡ (
        some e,
        record l { journal = l.journal ++ written e ∷ []; seq = e.seq; prev_hash = e.hash_value },
      )
  unfolding commit
  commit-works l e sound = rw sound refl

  commit-sync_fails :
      (l : Log) (e : Entry)
      → l.stuck ≡ false
      → commit l e sync_fails ≡ (none, record l { journal = l.journal ++ written e ∷ [] })
  unfolding commit
  commit-sync_fails l e sound = rw sound refl

  commit-IsChained :
      (check : Entry → Bool) (l : Log) (e : Entry)
      → l.stuck ≡ false
      → IsChained check l
      → IsNext check l.prev_hash l.seq e
      → IsChained check (commit l e works).1
  unfolding commit verify
  commit-IsChained check l e sound c (s, p, v, k) =
      let follows =
        verify_from-append check genesis_hash 0 l.journal e c.intact
          (s ∙ ap successor (sym c.count), p ∙ sym c.head, v, k) in
      rw sound (record {
        intact = ap (λ r. r.intact) follows;
        count = ap (λ r. r.entries) follows;
        head = ap (λ r. r.head) follows;
      })

  last_from-verify :
      (check : Entry → Bool) (prev : Text) (n : ℕ) (ls : List Line)
      → (verify_from hash decimal format_time check prev (successor n) n ls).intact ≡ true
      → last_from n prev ls
        ≡ some (
          (verify_from hash decimal format_time check prev (successor n) n ls).entries,
          (verify_from hash decimal format_time check prev (successor n) n ls).head,
        )
  unfolding verify_from last_from broken
  last_from-verify check prev n [] h = refl
  last_from-verify check prev n (blank ∷ ls) h = last_from-verify check prev n ls h
  last_from-verify check prev n (garbled ∷ ls) h = absurd (ground arith)
  last_from-verify check prev n (written e ∷ ls) h =
      ground (arith, last_from-verify check e.hash_value (successor n) ls)

  -- A restart resumes the chain: opening the journal of a log that stands at the end of a journal
  -- that verifies gives that log again, with a writer that has not failed.
  pub open_log-resumes :
      (check : Entry → Bool) (l : Log)
      → IsChained check l
      → open_log l.journal ≡ some (record l { stuck = false })
  unfolding open_log verify
  open_log-resumes check l c =
      ground (arith, last_from-verify check genesis_hash 0 l.journal c.intact, c.count, c.head)

  verify_from-jumped :
      (check : Entry → Bool) (prev : Text) (n : ℕ) (ls : List Line) (e : Entry)
      → (verify_from hash decimal format_time check prev (successor n) n ls).intact ≡ true
      → e.seq
        ≢ successor (verify_from hash decimal format_time check prev (successor n) n ls).entries
      → (verify_from hash decimal format_time check prev
          (successor n)
          n
          (ls ++ written e ∷ [])).intact
        ≡ false
  unfolding verify_from broken
  verify_from-jumped check prev n [] e h d = ground arith
  verify_from-jumped check prev n (blank ∷ ls) e h d = verify_from-jumped check prev n ls e h d
  verify_from-jumped check prev n (garbled ∷ ls) e h d = absurd (ground arith)
  verify_from-jumped check prev n (written c ∷ ls) e h d =
      ground (arith, verify_from-jumped check c.hash_value (successor n) ls e)

  -- A flaw of `Append`, shown for a log without a signer whose journal verifies, whose writer has not
  -- failed and whose numbers do not wrap around: the entry of an append whose sync fails is in the file, but the log does not
  -- step on, so the next append that works writes its number again and the journal no longer
  -- verifies.
  pub append-breaks_after_sync :
      (check : Entry → Bool) (l : Log) (ev next_ev : Event) (now later : ℕ)
      → IsChained check l
      → l.stuck ≡ false
      → l.seq + 2 < 2 ^ 64
      → check (sealed hash decimal format_time l ev now) ≡ true
      → let failed = (append hash decimal format_time none l ev now sync_fails).1 in
        (verify hash decimal format_time check
          (append hash decimal format_time none failed next_ev later works).1.journal).intact
        ≡ false
  unfolding append verify
  append-breaks_after_sync check l ev next_ev now later c sound small k =
      let e = sealed hash decimal format_time l ev now in
      let first =
        subst (λ r. IsChained check r.1) (commit-works l e sound)
          (commit-IsChained check l e sound c
            (sealed-IsNext check l ev now [] (unfold sealed in k))) in
      let failed : Log = record l { journal = l.journal ++ written e ∷ [] } in
      let numbered : (m : Log) (v : Event) (t : ℕ)
          → (sealed hash decimal format_time m v t).seq ≡ successor m.seq =
        λ m v t. unfold sealed in refl in
      let count : (verify_from hash decimal format_time check genesis_hash (successor 0) 0
            failed.journal).entries
          ≡ successor l.seq =
        first.count ∙ numbered l ev now in
      let e' = sealed hash decimal format_time failed next_ev later in
      let again : e'.seq ≡ successor l.seq = numbered failed next_ev later in
      let jumped =
        verify_from-jumped check genesis_hash 0 failed.journal e' first.intact
          (λ same. absurd (omega (arith, again, count, same, small))) in
      subst
        (λ f.
          (verify hash decimal format_time check
            (append hash decimal format_time none f next_ev later works).1.journal).intact
          ≡ false)
        (sym (ap (λ r. r.1) (commit-sync_fails l e sound)))
        (subst (λ r. (verify hash decimal format_time check r.1.journal).intact ≡ false)
          (sym (commit-works failed e' sound)) jumped)

  -- A flaw of `hashOf`: the fields are separated by newlines that they may hold themselves, so a line
  -- can be moved from the operation to the actor of an entry without a change of its hash.
  hash_of-ambiguous :
      (e : Entry) (op moved actor : Text)
      → hash_of hash decimal format_time (record e { op = op ++ nl ++ moved; actor = actor })
        ≡ hash_of hash decimal format_time (record e { op = op; actor = moved ++ nl ++ actor })
  unfolding hash_of hash_input
  hash_of-ambiguous e op moved actor = simp append_assoc
