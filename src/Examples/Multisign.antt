-- ===== src/Examples/Multisign.antt =====
-- The session operations on one session that two people are to sign, the first of them having done
-- so already.
use Prim.Native.String.{String}
use qoltanba.Prelude.{
  ℕ, ◌<◌, ◌≤◌, ◌≡◌, refl, ◌⊎◌, true, false, none, some, List, [], ◌∷◌, ◌++◌, All, Text, codes,
  is_empty, text_eq, length, lookup, insert, has_prefix, arith, Result, ok, err,
}
use qoltanba.Core.Contract.{
  SignatureFormat, format_valid, ReportSigner, VerifyInput, VerifyOutput, valid,
}
use qoltanba.Multisign.Session.{
  pending, complete, expired, Required, Signature, Session, required_empty, satisfied,
  remaining_from, remaining, is_complete, already_collected, contains_all, matches,
  matches_any_requirement, first_open, record_signature, identity_of,
}
use qoltanba.Multisign.Service.{
  session_closed, Store, store_get, store_save, nobody_from, check_request, CreateRequest,
  report_signers, get, conclude, opened, signers_of, collect, accept_signers, create, accept,
  submit,
}
use qoltanba.Multisign.Collect.{IsDistinct, IsInvited}
use qoltanba.Multisign.Submit.{
  IsSound, AreStillThere, submit-extends, submit-IsSound, submit_refused, create-counts_twice,
}

abbrev person : Text → ReportSigner
person iin = record {
  name = codes "N";
  iin = iin;
  bin = [];
  organization = [];
  owner_type = [];
  roles = [];
  valid = true;
  signed_at = some 20;
  signed_at_source = codes "timestamp";
}

abbrev invited : Text → Required
invited iin = record { iin = iin; bin = []; role = []; label = [] }

abbrev entry : Text → ℕ → Signature
entry iin k = record {
  iin = iin;
  bin = [];
  name = codes "N";
  roles = [];
  signed_at = 20;
  satisfies = some k;
}

abbrev half_signed : Session
half_signed = record {
  id = codes "s";
  status = pending;
  format = SignatureFormat.cms;
  detached = false;
  document = codes "D";
  container = codes "C";
  required = invited (codes "1") ∷ invited (codes "2") ∷ [];
  min_signers = 0;
  collected = entry (codes "1") 0 ∷ [];
  subject = [];
  created_at = 10;
  expires_at = 100;
}

abbrev fully_signed : Session
fully_signed = record half_signed {
  status = complete;
  container = codes "CC";
  collected = entry (codes "1") 0 ∷ entry (codes "2") 1 ∷ [];
}

-- a verifier that finds these signers in every container
abbrev finds : List ReportSigner → VerifyInput → Result String VerifyOutput
finds xs input = ok (record {
  valid = true;
  format = SignatureFormat.cms;
  detached = false;
  signers = [];
  warnings = [];
  lib_error = none;
  explanation = none;
  report = some (record { verdict = valid; checked_at = 50; signers = xs; steps = [] });
})

abbrev both : List ReportSigner
both = person (codes "1") ∷ person (codes "2") ∷ []

abbrev before : Store
before = (codes "s", half_signed) ∷ []

abbrev after : Store
after = (codes "s", fully_signed) ∷ []

submit-both :
    submit text_eq (finds both) before (codes "s") (codes "CC") 50 ≡ (ok fully_signed, after)
unfolding submit accept accept_signers collect conclude get store_get store_save signers_of
    report_signers contains_all already_collected record_signature first_open satisfied matches
    matches_any_requirement is_complete remaining remaining_from lookup insert has_prefix text_eq
    identity_of
submit-both = refl

found_before : lookup (codes "s") before ≡ some half_signed
unfolding lookup text_eq
found_before = refl

submit-extends_example :
    (half_signed.status ≡ pending)
    × (50 < 100)
    × (fully_signed.container ≡ codes "CC")
    × ((xs : List ReportSigner) × (added : List Signature) × (signers_of
            (finds both)
            half_signed
            (codes "CC")
          ≡ ok xs)
        × AreStillThere xs half_signed.collected
        × (fully_signed.collected ≡ half_signed.collected ++ added)
        × (0 < length added)
        × (is_empty half_signed.required ≡ false
            → All (IsInvited text_eq half_signed.required 50 xs) added))
submit-extends_example =
    submit-extends text_eq (finds both) before (codes "s") (codes "CC") 50 half_signed fully_signed
      after found_before submit-both

half_signed-IsSound : IsSound half_signed
unfolding is_complete remaining remaining_from satisfied
half_signed-IsSound = record {
  distinct = (tt, tt);
  one_each = (tt, tt);
  marked = (λ h. absurd (ground arith), λ h. absurd (ground arith));
}

submit-IsSound_example : IsSound fully_signed
submit-IsSound_example =
    submit-IsSound text_eq (finds both) before (codes "s") (codes "CC") 50 half_signed fully_signed
      after found_before submit-both half_signed-IsSound

abbrev late : Store
late = (codes "s", record half_signed { status = expired }) ∷ []

submit-late :
    submit text_eq (finds both) before (codes "s") (codes "CC") 200 ≡ (err session_closed, late)
unfolding submit get store_get store_save lookup insert text_eq
submit-late = refl

submit_refused_example :
    (late ≡ before)
    ⊎ ((s : Session) × (lookup (codes "s") before ≡ some s)
        × (s.status ≡ pending)
        × (s.expires_at ≤ 200)
        × (late ≡ insert s.id (record s { status = expired }) before))
submit_refused_example =
    submit_refused text_eq (finds both) before (codes "s") (codes "CC") 200 session_closed late
      submit-late

-- a session over a container that is signed already, where any two signers are to sign
abbrev seeded : CreateRequest
seeded = record {
  format = SignatureFormat.cms;
  detached = false;
  document = codes "D";
  container = codes "C";
  required = [];
  min_signers = 2;
  subject = [];
  ttl_seconds = 60;
}

abbrev twice : List ReportSigner
twice = person (codes "1") ∷ person (codes "1") ∷ []

seeded_checked : check_request seeded ≡ ok SignatureFormat.cms
unfolding check_request nobody_from required_empty format_valid
seeded_checked = refl

seeded_signers :
    signers_of (finds twice) (opened seeded SignatureFormat.cms (codes "s") 10 20) (codes "C")
    ≡ ok twice
unfolding signers_of report_signers has_prefix
seeded_signers = refl

create-counts_twice_example :
    (s : Session) × ((create text_eq (finds twice) [] seeded (some (codes "s")) 10 20).0 ≡ ok s)
    × (s.status ≡ complete)
    × (¬ IsDistinct s.collected)
create-counts_twice_example =
    create-counts_twice text_eq (finds twice) [] seeded SignatureFormat.cms (codes "s") 10 20
      (person (codes "1")) seeded_checked refl refl refl seeded_signers
