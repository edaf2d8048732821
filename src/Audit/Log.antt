-- ===== src/Audit/Log.antt =====
-- log.go: appending to the journal and verifying it. `hash` stands for the hexadecimal SHA-256,
-- `decimal` and `format_time` for the formatting of numbers and times, `sign` for the service key
-- (`none` where no signer is set), `check` for the optional check of signatures. The journal is the
-- list of its entries; a line that is blank or no JSON is a line of its own kind. Texts are valid UTF-8,
-- so that a line of JSON reads back as its entry.
use qoltanba.Prelude.{
  ℕ, ◌+◌, ◌%◌, ◌^◌, ◌==◌, if◌then◌else◌, Bool, true, false, not, Option, none, some, List, [], ◌∷◌,
  ◌++◌, Text, codes, text_eq,
}

pub record Entry : Type 0 where
  pub seq : ℕ
  pub at : ℕ
  pub op : Text
  pub actor : Text
  pub subject : Text
  pub signer : Text
  pub outcome : Text
  pub detail : Text
  pub prev_hash : Text
  pub hash_value : Text
  pub signature : Text

pub record Event : Type 0 where
  pub op : Text
  pub actor : Text
  pub subject : Text
  pub signer : Text
  pub outcome : Text
  pub detail : Text

abbrev pub genesis_hash : Text
genesis_hash = codes "genesis"

pub data Line : Type 0 where
  blank garbled : Line
  written : Entry → Line

-- the log with its file; `stuck` is the error that bufio.Writer keeps once a write has failed
pub record Log : Type 0 where
  pub journal : List Line
  pub seq : ℕ
  pub prev_hash : Text
  pub stuck : Bool

-- how much of a line reaches the file when its write fails: nothing, a beginning that is no JSON, or
-- all but the newline
pub data Torn : Type 0 where
  untouched partial unterminated : Torn

-- what the file system does to one append
pub data Disk : Type 0 where
  works sync_fails : Disk
  write_fails : Torn → Disk

pub data Reason : Type 0 where
  not_json jumped unlinked edited bad_signature : Reason

pub record VerifyResult : Type 0 where
  pub entries : ℕ
  pub broken_at : ℕ
  pub reason : Option Reason
  pub head : Text
  pub intact : Bool

-- `n++` on a uint64
abbrev pub successor : ℕ → ℕ
successor n = (n + 1) % 2 ^ 64

abbrev pub nl : Text
nl = 10 ∷ []

-- `broken`
unfoldable pub broken : ℕ → ℕ → Reason → VerifyResult
broken entries at reason = record {
  entries = entries;
  broken_at = at;
  reason = some reason;
  head = [];
  intact = false;
}

-- the lines that a torn write adds
abbrev pub torn_lines : Torn → Entry → List Line
torn_lines untouched e = []
torn_lines partial e = garbled ∷ []
torn_lines unterminated e = written e ∷ []

-- the end of `Append`: the write, the sync and the step of the chain's head
unfoldable pub commit : Log → Entry → Disk → Option Entry × Log
commit l e disk = if l.stuck then (none, l) else elim disk [
  | write_fails torn ↦ (none, record l { journal = l.journal ++ torn_lines torn e; stuck = true })
  | sync_fails ↦ (none, record l { journal = l.journal ++ written e ∷ [] })
  | works ↦ (
    some e,
    record l { journal = l.journal ++ written e ∷ []; seq = e.seq; prev_hash = e.hash_value },
  )
]

-- the loop of `tail`: the last entry, or `none` where a line cannot be read
unfoldable pub last_from : ℕ → Text → List Line → Option (ℕ × Text)
last_from seq prev [] = some (seq, prev)
last_from seq prev (blank ∷ ls) = last_from seq prev ls
last_from seq prev (garbled ∷ ls) = none
last_from seq prev (written e ∷ ls) = last_from e.seq e.hash_value ls

-- `Open` on an existing journal, or on none
unfoldable pub open_log : List Line → Option Log
unfolding last_from
open_log ls = elim (last_from 0 genesis_hash ls) [
  | none ↦ none
  | some (seq, prev) ↦ some (record { journal = ls; seq = seq; prev_hash = prev; stuck = false })
]

module _ (hash : Text → Text) (decimal format_time : ℕ → Text) where
  -- what `hashOf` feeds to the hash
  unfoldable pub hash_input : Entry → Text
  hash_input e =
      decimal e.seq
      ++ nl
      ++ format_time e.at
      ++ nl
      ++ e.op
      ++ nl
      ++ e.actor
      ++ nl
      ++ e.subject
      ++ nl
      ++ e.signer
      ++ nl
      ++ e.outcome
      ++ nl
      ++ e.detail
      ++ nl
      ++ e.prev_hash
      ++ nl

  -- `hashOf`
  unfoldable pub hash_of : Entry → Text
  unfolding hash_input
  hash_of e = hash (hash_input e)

  -- the entry of `Append` before it is signed
  unfoldable pub sealed : Log → Event → ℕ → Entry
  unfolding hash_of
  sealed l ev now =
      let e : Entry = record {
        seq = successor l.seq;
        at = now;
        op = ev.op;
        actor = ev.actor;
        subject = ev.subject;
        signer = ev.signer;
        outcome = ev.outcome;
        detail = ev.detail;
        prev_hash = l.prev_hash;
        hash_value = [];
        signature = [];
      } in
      record e { hash_value = hash_of e }

  -- `Log.Append`; `none` is an error
  unfoldable pub append :
      Option (ℕ → Text → Option Text) → Log → Event → ℕ → Disk → Option Entry × Log
  unfolding sealed commit
  append none l ev now disk = commit l (sealed l ev now) disk
  append (some sign) l ev now disk =
      let e = sealed l ev now in
      elim (sign e.seq e.hash_value) [
        | none ↦ (none, l)
        | some signature ↦ commit l (record e { signature = signature }) disk
      ]

  -- the loop of `Verify`, with the previous hash, the expected number and the entries so far
  unfoldable pub verify_from : (Entry → Bool) → Text → ℕ → ℕ → List Line → VerifyResult
  unfolding hash_of
  verify_from check prev expected entries [] = record {
    entries = entries;
    broken_at = 0;
    reason = none;
    head = prev;
    intact = true;
  }
  verify_from check prev expected entries (blank ∷ ls) = verify_from check prev expected entries ls
  verify_from check prev expected entries (garbled ∷ ls) = broken entries expected not_json
  verify_from check prev expected entries (written e ∷ ls) =
      let rest = verify_from check e.hash_value (successor expected) (successor entries) ls in
      if not (e.seq == expected)
      then broken entries expected jumped
      else if not (text_eq e.prev_hash prev)
      then broken entries e.seq unlinked
      else if not (text_eq e.hash_value (hash_of e))
      then broken entries e.seq edited
      else if not (check e)
      then broken entries e.seq bad_signature
      else rest

  -- `Verify`
  unfoldable pub verify : (Entry → Bool) → List Line → VerifyResult
  unfolding verify_from
  verify check ls = verify_from check genesis_hash 1 0 ls
