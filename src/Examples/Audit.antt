-- ===== src/Examples/Audit.antt =====
-- The journal operations on an empty journal, with the identity in place of the hash.
use mathlib.Core.List.{Memᴰ}
use qoltanba.Prelude.{
  Option, ℕ, ◌≡◌, refl, Bool, true, false, none, some, [], ◌∷◌, Text, codes, arith, length, sym, ap,
  ◌∙◌, map, text_eq, List,
}
use qoltanba.Audit.Log.{
  Entry, Event, Line, blank, written, sealed, hash_input, genesis_hash, Log, works, sync_fails,
  hash_of, append, verify, verify_from, open_log,
}
use qoltanba.Audit.Pinning.{entries_of, HasNoCollision, verify-pins}
use qoltanba.Audit.Chain.{IsChained, open_log-resumes, append-breaks_after_sync}

abbrev same_text : Text → Text
same_text t = t

abbrev one_digit : ℕ → Text
one_digit n = n ∷ []

abbrev any_entry : Entry → Bool
any_entry e = true

abbrev empty : Log
empty = record { journal = []; seq = 0; prev_hash = genesis_hash; stuck = false }

abbrev verified : Event
verified = record {
  op = codes "verify";
  actor = codes "a";
  subject = codes "d";
  signer = codes "1";
  outcome = codes "valid";
  detail = [];
}

empty-IsChained : IsChained same_text one_digit one_digit any_entry empty
unfolding verify verify_from
empty-IsChained = record { intact = refl; count = refl; head = refl }

-- a signer, and the check that accepts its signatures only
abbrev stamp : ℕ → Text → Option Text
stamp n h = some (codes "S")

abbrev stamped : Entry → Bool
stamped e = text_eq e.signature (codes "S")

open_log-resumes_example : open_log [] ≡ some empty
open_log-resumes_example =
    open_log-resumes same_text one_digit one_digit any_entry empty empty-IsChained

append-breaks_after_sync_example :
    let failed = (append same_text one_digit one_digit none empty verified 5 sync_fails).1 in
    (verify same_text one_digit one_digit any_entry
      (append same_text one_digit one_digit none failed verified 6 works).1.journal).intact
    ≡ false
append-breaks_after_sync_example =
    append-breaks_after_sync same_text one_digit one_digit any_entry empty verified verified 5 6
      empty-IsChained refl (omega arith) refl

abbrev entry : Entry
entry = record {
  seq = 1;
  at = 5;
  op = codes "verify";
  actor = codes "a";
  subject = codes "d";
  signer = codes "1";
  outcome = codes "valid";
  detail = [];
  prev_hash = genesis_hash;
  hash_value = [];
  signature = [];
}

-- a hash of one length: the length of the text
abbrev size : Text → Text
size t = length t ∷ []

abbrev first_entry : Entry
first_entry = sealed size one_digit one_digit empty verified 5

abbrev journal : List Line
journal = written first_entry ∷ []

abbrev spaced_journal : List Line
spaced_journal = blank ∷ written first_entry ∷ []

journal_intact : (verify size one_digit one_digit any_entry journal).intact ≡ true
unfolding verify verify_from sealed hash_of hash_input text_eq
journal_intact = refl

spaced_journal_intact : (verify size one_digit one_digit any_entry spaced_journal).intact ≡ true
unfolding verify verify_from sealed hash_of hash_input text_eq
spaced_journal_intact = refl

same_head :
    (verify size one_digit one_digit any_entry journal).head
    ≡ (verify size one_digit one_digit any_entry spaced_journal).head
unfolding verify verify_from
same_head = refl

is_first : (e : Entry) → Memᴰ e (first_entry ∷ []) → e ≡ first_entry
is_first e (Memᴰ.head h) = h
is_first e (Memᴰ.tail n) = elim n [ ]

no_collision : HasNoCollision size one_digit one_digit (first_entry ∷ []) (first_entry ∷ [])
no_collision d e m n h =
    ap (hash_input size one_digit one_digit) (is_first d m ∙ sym (is_first e n))

verify-pins_example :
    map (hash_input size one_digit one_digit) (entries_of journal)
    ≡ map (hash_input size one_digit one_digit) (entries_of spaced_journal)
verify-pins_example =
    verify-pins size one_digit one_digit any_entry any_entry journal spaced_journal (λ s t. refl)
      no_collision refl journal_intact spaced_journal_intact same_head
