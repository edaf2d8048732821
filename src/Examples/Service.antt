-- ===== src/Examples/Service.antt =====
-- Verify and Validate of internal/core at one container with one signer, whose certificate has a
-- responder that answers good, and the chain of a leaf whose issuer is fetched.
use qoltanba.Prelude.{
  ℕ, suc, if◌then◌else◌, ◌≡◌, refl, ◌⊎◌, true, false, Option, none, some, [], ◌∷◌, All, codes,
  is_empty, map, any, length, Text, text_eq, ◌||◌, ◌≤◌, List, ok, err,
}
use qoltanba.Core.Contract.{
  VerifyInput, TrustedCert, SignatureFormat, ValidationMethod, CertEncoding, revocation_requested,
  VerifyOutput, ValidateInput, ValidateOutput,
}
use qoltanba.Core.Provider.{ProviderError, Sentinel, CertStatus}
use qoltanba.Core.Validation.{Validator}
use qoltanba.Core.Validate.{validate}
use qoltanba.Core.Determined.{IsCached, IsAnswered, validate_determinate}
use qoltanba.Core.Verification.{VerifyRequest, VerifyResult, Verifier, verify}
use qoltanba.Core.Verified.{IsUnrevoked, IsConfirmed, verify_valid}
use qoltanba.Core.Chain.{
  X509, SignatureCheck, Chains, max_chain_depth, is_self_issued, anchor_ders, build_chain,
}
use qoltanba.Core.Linked.{IsNew, last_of, IsLinked, build_chain-IsLinked}
use qoltanba.Core.Registry.{BatchItem, RegistryItem, with_report, verify_registry}
use qoltanba.Core.Tally.{counted, AreRowsOf, HasCounted, empty_register, verify_registry_lem}
use qoltanba.Examples.Core.{certificate, clear, signer, request}

-- a service without a CRL source, whose library answers good
abbrev validator : Validator
validator = record {
  to_der = λ cert _. cert;
  ocsp_url = λ _. codes "U";
  anchors = [];
  discover = none;
  crl_source = none;
  crl_fail_hard = true;
  write_temp = λ _. ok (codes "T");
  validate_cert =
      λ _. (record { status = CertStatus.good; info = []; ocsp_response = codes "R" }, none);
  parse_ocsp = λ _. none;
  reason_in = λ _. none;
  parse_crl = λ _. none;
  parse_serial = λ _. none;
  lib_error_from =
      λ e. record { code = e.text; text = e.text; key = []; message = e.text; action = e.text };
  digest = λ t. t;
}

abbrev query : ValidateInput
query = record {
  cert = codes "PEM";
  encoding = CertEncoding.pem;
  method = ValidationMethod.unset;
  check_time = some 60;
  want_ocsp = true;
  responder_url = [];
  crl_bytes = [];
  trusted_certs = [];
}

-- what Validate answers
abbrev answered : ValidateOutput
answered = record {
  status = record clear { checked_at = some 60; reason = [] };
  ocsp_response = codes "R";
}

validate_determinate_example :
    IsCached validator none query 60 70 answered ⊎ IsAnswered validator query 60 answered
unfolding validate
validate_determinate_example = validate_determinate validator none query 65 70 75 answered refl refl

-- a library that rejects the container for its chain whenever it checks the time
abbrev verified_by : VerifyRequest → VerifyResult × Option ProviderError
verified_by q =
    if q.check_cert_time
    then (
      record { valid = false; signers = codes "PEM" ∷ []; info = [] },
      some (record { kind = Sentinel.chain_invalid; native = true; text = "chain" }),
    )
    else (record { valid = true; signers = codes "PEM" ∷ []; info = [] }, none)

-- a service whose responder counts its answers, which are all clear
abbrev verifier : Verifier ℕ
verifier = record {
  verify_cms = verified_by;
  verify_xml = verified_by;
  anchors = [];
  discover = none;
  signer_ders = λ xs. xs;
  build_signers = λ _ _ _ _. (record signer { valid = false } ∷ [], []);
  verify_chain = true;
  validate = λ n _. (ok (record { status = clear; ocsp_response = [] }), suc n);
  revocation_field = λ _. codes "revocation";
  lib_error_from = validator.lib_error_from;
}

-- what Verify answers: the override holds the container valid, and the signer is not revoked
abbrev overridden : VerifyOutput
overridden = record {
  valid = true;
  format = SignatureFormat.cms;
  detached = true;
  signers = signer ∷ [];
  warnings =
      record {
        field = codes "verify";
        reason =
            "cert-time-anchor-override: library rejected the time-checked verify (GOST-2015 VerifyData quirk); signature math, cryptographic chain to a trusted anchor and validity window independently confirm the signature";
      }
      ∷ [];
  lib_error = none;
  explanation = none;
  report = none;
}

verify_valid_example :
    (is_empty (signer ∷ []) ≡ false)
    × ((revocation_requested request.verify_input ≡ false) ⊎ All IsUnrevoked (signer ∷ []))
    × IsConfirmed verifier request.verify_input 50
unfolding verify
verify_valid_example = verify_valid verifier 0 request.verify_input 50 overridden refl refl

-- a signer who is revoked makes the verification invalid
abbrev revoking : Verifier ℕ
revoking = record verifier {
  validate =
      λ n _. (ok (record { status = record clear { revoked = true }; ocsp_response = [] }), suc n);
}

revoked_signer :
    (elim (verify revoking 0 request.verify_input 50).0 [ ok out ↦ out.valid | err _ ↦ true ])
    ≡ false
unfolding verify
revoked_signer = refl

-- a certificate with its subject and its issuer
abbrev x509 : Text → Text → X509
x509 subject issuer = record {
  raw = subject;
  raw_subject = subject;
  raw_issuer = issuer;
  authority_key_id = [];
  subject_key_id = [];
}

-- a leaf whose issuer is fetched, and whose root is configured; no signature can be checked
abbrev chains : Chains
chains = record {
  to_der = λ t. t;
  parse = λ t. some (
      if text_eq t (codes "R")
      then x509 (codes "R") (codes "R")
      else if text_eq t (codes "I")
      then x509 (codes "I") (codes "R")
      else x509 (codes "L") (codes "I"));
  check_signature_from = λ _ _. SignatureCheck.unsupported;
  fetcher = some (λ _. some (codes "I"));
  cert_from_x509 = λ _. certificate none none;
}

abbrev root : TrustedCert
root = record { cert = codes "R"; intermediate = false }

abbrev leaf : X509
leaf = x509 (codes "L") (codes "I")

build_chain-IsLinked_example :
    (xs : List X509) × ((build_chain chains (certificate none none) (codes "L") (root ∷ [])).nodes
      ≡ certificate none none ∷ map chains.cert_from_x509 xs)
    × (length xs ≤ max_chain_depth)
    × IsLinked chains leaf xs
    × IsNew (codes "L" ∷ []) xs
    × (((build_chain chains (certificate none none) (codes "L") (root ∷ [])).complete ≡ false)
        ⊎ (is_self_issued (last_of leaf xs) ≡ true))
    × ((build_chain chains (certificate none none) (codes "L") (root ∷ [])).anchored ≡ (
        any (text_eq (codes "L")) (anchor_ders chains (root ∷ []))
        || any (λ c. any (text_eq c.raw) (anchor_ders chains (root ∷ []))) xs))
unfolding text_eq
build_chain-IsLinked_example =
    build_chain-IsLinked chains (certificate none none) (codes "L") (root ∷ []) leaf refl refl

-- the chain goes up to the root, which is an anchor
reaches_root :
    ((build_chain chains (certificate none none) (codes "L") (root ∷ [])).complete ≡ true)
    × ((build_chain chains (certificate none none) (codes "L") (root ∷ [])).anchored ≡ true)
unfolding build_chain text_eq
reaches_root = (refl, refl)

-- a batch with a verdict that has no report, and an item that was skipped
abbrev items : List RegistryItem
items =
    record { ref = codes "A"; verify_input = request.verify_input }
    ∷ record { ref = codes "B"; verify_input = request.verify_input }
    ∷ []

abbrev results : List VerifyInput → List BatchItem
results _ =
    record { index = 0; output = some overridden; error = none }
    ∷ record { index = 1; output = none; error = none }
    ∷ []

verify_registry_lem_example :
    AreRowsOf items
      (results (map with_report items))
      (verify_registry (λ t. t) items results 50).rows
    × HasCounted
        (results (map with_report items))
        empty_register
        (verify_registry (λ t. t) items results 50)
    × (counted (verify_registry (λ t. t) items results 50) ≡ 2)
verify_registry_lem_example = verify_registry_lem (λ t. t) items results 50
