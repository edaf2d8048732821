-- ===== src/Examples/Challenge.antt =====
-- The challenge operations on a store with one challenge that the client has signed.
use Prim.Native.String.{String}
use qoltanba.Prelude.{
  ◌<◌, ◌≡◌, refl, ◌⊎◌, true, false, none, some, [], ◌∷◌, Text, codes, lookup, insert, text_eq,
  Result, ok, err, arith,
}
use qoltanba.Core.Contract.{
  SignatureFormat, ValidationMethod, Subject, Signer, VerifyInput, VerifyOutput, ValidateInput,
  ValidateOutput,
}
use qoltanba.Challenge.Store.{Challenge, not_found, already_used, Store, consume, reap}
use qoltanba.Challenge.Service.{
  Config, IssueRequest, IssueResponse, ConfirmRequest, ConfirmResponse, issue, confirm,
  confirm_challenge, confirm_signer, confirmed_by, lifetime,
}
use qoltanba.Challenge.Replay.{Reach, Step, confirm-once}
use qoltanba.Challenge.Confirmation.{IsSignedBy, IsUnopposed, confirm_sound, issue-confirm}

abbrev nobody : Subject
nobody = record {
  common_name = codes "A";
  last_name = [];
  given_name = [];
  email = [];
  organization = [];
  iin = codes "1";
  bin = [];
  gender = [];
}

abbrev pub alice : Signer
alice = record {
  certificate = record {
    subject = nobody;
    issuer = nobody;
    serial_number = [];
    not_before = none;
    not_after = none;
    signature_algorithm_oid = [];
    key_algorithm = [];
    owner_type = [];
    roles = [];
    pem = codes "P";
  };
  chain = [];
  valid = true;
  signing_time = none;
  signature_algorithm = [];
  timestamp_gen_time = none;
  chain_complete = true;
  trust_anchor_found = true;
  chain_signatures_verified = true;
  cades_level = [];
  claims = none;
  revocation = none;
}

abbrev answer : VerifyOutput
answer = record {
  valid = true;
  format = SignatureFormat.cms;
  detached = true;
  signers = alice ∷ [];
  warnings = [];
  lib_error = none;
  explanation = none;
  report = none;
}

abbrev verifier : VerifyInput → Result String VerifyOutput
verifier input = ok (record answer { valid = text_eq input.content (codes "N") })

-- a responder that knows nothing of the certificate
abbrev unknown_status : ValidateOutput
unknown_status = record {
  status = record {
    revoked = false;
    determinate = false;
    method = ValidationMethod.ocsp;
    revocation_time = none;
    reason = [];
    checked_at = none;
    this_update = none;
    next_update = none;
    produced_at = none;
    lib_error = none;
  };
  ocsp_response = [];
}

abbrev responder : ValidateInput → Result String ValidateOutput
responder query = ok unknown_status

abbrev strict : Config
strict = record { ttl = 100; require_ocsp = true }

abbrev lenient : Config
lenient = record { ttl = 100; require_ocsp = false }

abbrev payment : IssueRequest
payment = record { purpose = codes "payment"; meta = [] }

abbrev challenge : Challenge
challenge = record {
  id = codes "c";
  nonce = codes "N";
  purpose = codes "payment";
  meta = [];
  created_at = 10;
  expires_at = 110;
  used = false;
}

abbrev before : Store
before = (codes "c", challenge) ∷ []

abbrev after : Store
after = (codes "c", record challenge { used = true }) ∷ []

abbrev request : ConfirmRequest
request = record { challenge_id = codes "c"; signature = codes "S"; check_revocation = false }

abbrev same_encoding : Text → Text
same_encoding t = t

confirm-once_example :
    let swept = (reap (confirm responder verifier strict before request 20).1 30).0 in
    (confirm responder verifier strict swept request 40 ≡ (err not_found, swept))
    ⊎ (confirm responder verifier strict swept request 40 ≡ (err already_used, swept))
unfolding lookup
confirm-once_example =
    confirm-once same_encoding responder verifier strict before
      (reap (confirm responder verifier strict before request 20).1 30).0 request request 20 40
      (refl, tt) refl
      (Reach.next Reach.here
        (Step.reaped (confirm responder verifier strict before request 20).1 30))

abbrev confirmation : ConfirmResponse
confirmation = confirmed_by challenge 20 alice

confirm-before : confirm responder verifier lenient before request 20 ≡ (ok confirmation, after)
unfolding confirm consume confirm_challenge confirm_signer lookup insert text_eq
confirm-before = refl

confirm_sound_example :
    (c : Challenge) × (lookup (codes "c") before ≡ some c)
    × (c.used ≡ false)
    × ((20 < c.expires_at)
        × ((x : Signer) × IsSignedBy responder verifier lenient request c x
            × IsUnopposed responder verifier lenient request x
            × (codes "payment" ≡ c.purpose)
            × ([] ≡ c.meta)
            × (none ≡ x.claims)
            × (some alice.certificate ≡ some x.certificate)))
confirm_sound_example =
    confirm_sound responder verifier lenient before after request 20 confirmation confirm-before
      refl

issue-confirm_example :
    ((given : IssueResponse) × ((issue same_encoding lenient [] payment
          (some (codes "N"))
          (some (codes "c"))
          10).0
        ≡ ok given)
      × (given.challenge_id ≡ codes "c")
      × (given.data_encoded ≡ codes "N"))
    × ((r : ConfirmResponse) × ((confirm responder verifier lenient
            (issue same_encoding lenient [] payment (some (codes "N")) (some (codes "c")) 10).1
            request
            20).0
          ≡ ok r)
        × (r.confirmed ≡ true)
        × (r.purpose ≡ codes "payment")
        × (r.meta ≡ [])
        × (r.certificate ≡ some alice.certificate))
unfolding text_eq
issue-confirm_example =
    issue-confirm responder verifier lenient same_encoding [] payment (codes "N") (codes "c") 10 20
      request answer alice [] refl (unfold lifetime in omega arith) refl refl refl refl

found : lookup (codes "c") before ≡ some challenge
unfolding lookup text_eq
found = refl
