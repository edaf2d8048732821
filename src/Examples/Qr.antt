-- ===== src/Examples/Qr.antt =====
-- The QR operations with one profile, and a domain that accepts every signature.
use qoltanba.Prelude.{
  ◌≡◌, refl, ◌⊎◌, inl, inr, true, false, none, some, [], ◌∷◌, Text, codes, text_eq, lookup, insert,
  Result, ok, err, arith,
}
use qoltanba.Core.Contract.{SignatureFormat, Claims, VerifyOutput}
use qoltanba.Qr.Session.{
  Mode, Status, Session, Error, Profiler, session_not_found, session_used, signature_rejected,
}
use qoltanba.Qr.Store.{Store, reap}
use qoltanba.Qr.Orchestrator.{Orchestrator, CreateRequest, CreateResponse, new_session}
use qoltanba.Qr.Handlers.{Formats, create_session, submit_signature}
use qoltanba.Qr.Creation.{IsReady, create_session_lem}
use qoltanba.Qr.Submission.{Ending, submit_signature-Ending}
use qoltanba.Qr.Effects.{IsWell}
use qoltanba.Qr.Invariants.{insert-IsWell}
use qoltanba.Qr.Finality.{Step, Reach, IsKept, verified_final, submit_signature-once}
use qoltanba.Examples.Challenge.{alice}

abbrev pub claims : Claims
claims = record {
  sub = codes "1";
  name = [];
  given_name = [];
  family_name = [];
  email = [];
  iin = codes "1";
  bin = [];
  organization = [];
  roles = [];
  owner_type = [];
  gender = [];
}

abbrev accepted_answer : VerifyOutput
accepted_answer = record {
  valid = true;
  format = SignatureFormat.cms;
  detached = false;
  signers = record alice { claims = some claims } ∷ [];
  warnings = [];
  lib_error = none;
  explanation = none;
  report = none;
}

abbrev own_gateway : Profiler (Unit {0})
own_gateway = record {
  self_hosted = true;
  prepare = λ s urls. ok (record {
    artifacts = record {
      payload = urls.data_url;
      egov_mobile_link = [];
      egov_business_link = [];
      data_url = urls.data_url;
      sign_url = urls.sign_url;
    };
    relay_id = [];
    relay_sign_url = [];
  });
  app_data = λ s. ok tt;
  parse_app_signature = λ s body. ok body;
  poll = λ s. ok none;
}

abbrev desk : Orchestrator (Unit {0}) (Unit {0})
desk = record {
  verifier = λ q. ok accepted_answer;
  validator = λ q. err signature_rejected;
  issuer = none;
  profiles = (codes "agnostic", own_gateway) ∷ [];
  cfg = record {
    default_profile = codes "agnostic";
    default_mode = Mode.sign;
    ttl = 300;
    reap_interval = 60;
    require_ocsp = false;
  };
  has_webhook = false;
}

abbrev formats : Formats (Unit {0})
formats = record {
  trim_space = λ s. s;
  encode_tokens = λ t. ok [];
  encode_result = λ r. ok r.signature;
}

abbrev request : CreateRequest
request = record {
  mode = Mode.unset;
  profile = [];
  sign_method = [];
  format = SignatureFormat.unset;
  detached = false;
  content = codes "doc";
  documents = [];
  description = [];
  client_id = [];
  state = [];
  nonce = [];
  callback_url = [];
  ttl_seconds = 0;
}

abbrev as_image : Text → Result Error Text
as_image payload = ok payload

abbrev session : Session
session = record (new_session desk.cfg request Mode.sign (codes "s") 10) { content = codes "doc" }

abbrev one : Store
one = (codes "s", session) ∷ []

abbrev done : Session
done = record session { used = true; status = Status.verified; result = codes "sig" }

empty-IsWell : IsWell []
unfolding lookup
empty-IsWell = record {
  unique = tt;
  keyed = λ k s found. absurd (ground arith);
  settled = λ k s found. absurd (ground arith);
}

one-IsWell : IsWell one
unfolding insert
one-IsWell = insert-IsWell [] (codes "s") session empty-IsWell refl (inr (λ v. ground arith))

done-IsWell : IsWell ((codes "s", done) ∷ [])
unfolding insert
done-IsWell = insert-IsWell [] (codes "s") done empty-IsWell refl (inl refl)

create_session_lem_example :
    ((e : Error) × (create_session desk as_image [] request
          (codes "https://q/")
          (ok (codes "s"))
          (ok [])
          10
        ≡ (err e, [])))
    ⊎ ((id : Text) × (answer : CreateResponse) × (s : Session) × (create_session desk as_image []
            request
            (codes "https://q/")
            (ok (codes "s"))
            (ok [])
            10
          ≡ (ok answer, insert id s []))
        × (◌≡◌ {A = Result Error Text} (ok (codes "s")) (ok id))
        × (answer.session_id ≡ id)
        × IsReady desk.cfg request id (ok []) 10 s)
create_session_lem_example =
    create_session_lem desk as_image [] request (codes "https://q/") (ok (codes "s")) (ok []) 10

submit_signature-Ending_example :
    ((lookup (codes "s") one ≡ none)
      × (submit_signature desk formats one (codes "s") (codes "sig") 20
          ≡ (err session_not_found, one, [])))
    ⊎ ((s : Session) × (lookup (codes "s") one ≡ some s)
        × (((s.used ≡ true)
              × (submit_signature desk formats one (codes "s") (codes "sig") 20
                  ≡ (err session_used, one, [])))
            ⊎ ((s.used ≡ false)
                × Ending desk formats one
                    (codes "s")
                    (codes "sig")
                    20
                    s
                    (submit_signature desk formats one (codes "s") (codes "sig") 20))))
submit_signature-Ending_example =
    submit_signature-Ending desk formats one (codes "s") (codes "sig") 20

swept :
    Reach desk formats as_image
      (codes "s")
      ((codes "s", done) ∷ [])
      (reap ((codes "s", done) ∷ []) 20).0
swept = Reach.next Reach.here (Step.reaped 20)

done_there : lookup (codes "s") ((codes "s", done) ∷ []) ≡ some done
unfolding lookup text_eq
done_there = refl

verified_final_example :
    IsKept desk formats as_image (codes "s") done (reap ((codes "s", done) ∷ []) 20).0
verified_final_example =
    verified_final desk formats as_image ((codes "s", done) ∷ [])
      (reap ((codes "s", done) ∷ []) 20).0 (codes "s") done done-IsWell done_there refl swept

submit_signature-once_example :
    (submit_signature desk formats
        (submit_signature desk formats one (codes "s") (codes "sig") 20).1
        (codes "s")
        (codes "other")
        30
      ≡ (
        err session_not_found,
        (submit_signature desk formats one (codes "s") (codes "sig") 20).1,
        [],
      ))
    ⊎ (submit_signature desk formats
          (submit_signature desk formats one (codes "s") (codes "sig") 20).1
          (codes "s")
          (codes "other")
          30
        ≡ (
          err session_used,
          (submit_signature desk formats one (codes "s") (codes "sig") 20).1,
          [],
        ))
submit_signature-once_example =
    submit_signature-once desk formats as_image one
      (submit_signature desk formats one (codes "s") (codes "sig") 20).1 (codes "s") (codes "sig")
      (codes "other") 20 30 one-IsWell Reach.here
