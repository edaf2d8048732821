-- ===== src/Multisign/Service.antt =====
-- multisign.go, the operations, over the in-memory store of store.go. An operation returns its
-- answer with the store that it leaves. `verify` stands for the domain's Verify, `fold_eq` for
-- strings.EqualFold; the random id and the clock are arguments.
use Prim.Native.String.{String}
use qoltanba.Prelude.{
  pos, seconds, after, ℕ, suc, ◌+◌, ltb, ◌==◌, if◌then◌else◌, Bool, true, false, not, ◌&&◌, Option,
  none, some, List, [], ◌∷◌, ◌++◌, Text, codes, is_empty, has_prefix, Map, lookup, insert, delete,
  Result, ok, err, ◌>>=◌,
}
use qoltanba.Core.Contract.{
  ValidationMethod, SignatureFormat, format_valid, ReportSigner, VerifyInput, VerifyOutput,
}
use qoltanba.Multisign.Session.{
  Status, pending, complete, expired, Required, Signature, Session, required_empty, is_complete,
  already_collected, contains_all, matches_any_requirement, record_signature,
}

pub data Error : Type 0 where
  not_found session_closed no_new_signer lost_signer not_invited already_signed not_verified : Error
  document_required signers_required : Error
  identifies_nobody : ℕ → Error
  unknown_format : SignatureFormat → Error
  no_randomness : Error
  verifier_failed : String → Error

abbrev pub Store : Type 0
Store = Map Session

-- `MemStore.Get`
unfoldable pub store_get : Store → Text → Result Error Session
unfolding lookup
store_get m id = elim (lookup id m) [ none ↦ err not_found | some s ↦ ok s ]

-- `MemStore.Create`
unfoldable pub store_create : Store → Session → Store
unfolding insert
store_create m s = insert s.id s m

-- `MemStore.Save`: an update of what must already exist
unfoldable pub store_save : Store → Session → Result Error Store
unfolding lookup insert
store_save m s = elim (lookup s.id m) [ none ↦ err not_found | some _ ↦ ok (insert s.id s m) ]

-- `Service.Cancel`, which is `MemStore.Delete`
unfoldable pub cancel : Store → Text → Store
unfolding delete
cancel m id = delete id m

pub record CreateRequest : Type 0 where
  pub format : SignatureFormat
  pub detached : Bool
  pub document : Text
  pub container : Text
  pub required : List Required
  pub min_signers : ℕ
  pub subject : Text
  pub ttl_seconds : ℕ

-- the requirement that identifies nobody, from index `i` on
unfoldable pub nobody_from : ℕ → List Required → Option ℕ
unfolding required_empty
nobody_from i [] = none
nobody_from i (r ∷ rs) = if required_empty r then some i else nobody_from (suc i) rs

abbrev default_format : SignatureFormat → SignatureFormat
default_format SignatureFormat.unset = SignatureFormat.cms
default_format f = f

-- the guards of `Create`: the format to use, or the refusal
unfoldable pub check_request : CreateRequest → Result Error SignatureFormat
unfolding nobody_from format_valid
check_request req =
    if is_empty req.document && is_empty req.container
    then err document_required
    else if is_empty req.required && req.min_signers == 0
    then err signers_required
    else elim (nobody_from 0 req.required) [
      | some i ↦ err (identifies_nobody i)
      | none ↦
          let format = default_format req.format in
          if format_valid format then ok format else err (unknown_format format)
    ]

abbrev pub is_unmet : Option ℕ → Bool
is_unmet none = true
is_unmet (some _) = false

abbrev pub is_pending : Status → Bool
is_pending pending = true
is_pending complete = false
is_pending expired = false

-- `sess.Status = StatusComplete` where the requirements are met
abbrev pub settle : Session → Session
settle s = if is_complete s then record s { status = complete } else s

-- the answer of the verifier, read by `signersOf`
unfoldable pub report_signers : VerifyOutput → Result Error (List ReportSigner)
report_signers out =
    if not out.valid
    then err not_verified
    else elim out.report [ none ↦ err not_verified | some r ↦ ok r.signers ]

-- a store error of the save is ignored, as in the source
abbrev save_or_keep : Store → Session → Store
save_or_keep m s = elim (store_save m s) [ ok m' ↦ m' | err _ ↦ m ]

-- `Service.Get`: a pending session past its deadline expires
unfoldable pub get : Store → Text → ℕ → Result Error Session × Store
unfolding store_get store_save
get m id now = elim (store_get m id) [
  | err e ↦ (err e, m)
  | ok sess ↦
      if is_pending sess.status && not (ltb now sess.expires_at)
      then (
        ok (record sess { status = expired }),
        save_or_keep m (record sess { status = expired }),
      )
      else (ok sess, m)
]

-- `Submit` once the loop is done
unfoldable pub conclude : Session → Text → List Signature × ℕ → Result Error Session
conclude sess container (cs, added) =
    if added == 0
    then err no_new_signer
    else ok (settle (record sess { collected = cs; container = container }))

-- the session that `Create` opens, before it looks into a seeded container
abbrev pub opened : CreateRequest → SignatureFormat → Text → ℕ → ℕ → Session
opened req format id now ttl = record {
  id = id;
  status = pending;
  format = format;
  detached = req.detached;
  document = req.document;
  container = req.container;
  required = req.required;
  min_signers = req.min_signers;
  collected = [];
  subject = req.subject;
  created_at = now;
  expires_at = after now (if req.ttl_seconds == 0 then pos ttl else seconds req.ttl_seconds);
}

module _ (verify : VerifyInput → Result String VerifyOutput) where
  -- `signersOf`
  unfoldable pub signers_of : Session → Text → Result Error (List ReportSigner)
  unfolding report_signers has_prefix
  signers_of sess container =
      let input : VerifyInput = record {
        format = sess.format;
        signature = container;
        content = sess.document;
        detached = sess.detached;
        input_pem = has_prefix container (codes "-----BEGIN");
        check_cert_time = true;
        extract_claims = true;
        report = true;
        revocation_check = none;
        revocation_method = ValidationMethod.unset;
        responder_url = [];
        trusted_certs = [];
      } in
      elim (verify input) [ err e ↦ err (verifier_failed e) | ok out ↦ report_signers out ]

module _ (fold_eq : Text → Text → Bool) where
  -- the loop of `Create` over a seeded container
  unfoldable pub seed : List Required → ℕ → List Signature → List ReportSigner → List Signature
  unfolding record_signature
  seed rs now cs [] = cs
  seed rs now cs (x ∷ xs) = seed rs now (cs ++ record_signature fold_eq rs cs x now ∷ []) xs

  -- the loop of `Submit` over the container's signers: what is collected, and how many were added
  unfoldable pub collect :
      List Required → ℕ → List ReportSigner → List Signature → ℕ → Result Error (List Signature × ℕ)
  unfolding already_collected record_signature matches_any_requirement
  collect rs now [] cs added = ok (cs, added)
  collect rs now (x ∷ xs) cs added =
      let skip = collect rs now xs cs added in
      let entry = record_signature fold_eq rs cs x now in
      let next = collect rs now xs (cs ++ entry ∷ []) (added + 1) in
      if already_collected cs x
      then skip
      else if not (is_empty rs) && is_unmet entry.satisfies
      then (if matches_any_requirement fold_eq rs x then err already_signed else err not_invited)
      else next

  -- `Submit` with the signers of the container
  unfoldable pub accept_signers : Session → Text → ℕ → List ReportSigner → Result Error Session
  accept_signers sess container now xs =
      if not (contains_all xs sess.collected)
      then err lost_signer
      else collect sess.required now xs sess.collected 0 >>= conclude sess container

module _ (fold_eq : Text → Text → Bool) (verify : VerifyInput → Result String VerifyOutput) where
  -- `Service.Create`
  unfoldable pub create : Store → CreateRequest → Option Text → ℕ → ℕ → Result Error Session × Store
  unfolding seed store_create is_complete
  create m req fresh now ttl = elim (check_request req) [
    | err e ↦ (err e, m)
    | ok format ↦ elim fresh [
      | none ↦ (err no_randomness, m)
      | some id ↦
          let sess = opened req format id now ttl in
          if is_empty req.container
          then (ok sess, store_create m sess)
          else elim (signers_of verify sess req.container) [
            | err e ↦ (err e, m)
            | ok xs ↦
                let seeded =
                  settle (record sess { collected = seed fold_eq req.required now [] xs }) in
                (ok seeded, store_create m seeded)
          ]
    ]
  ]

  -- `Submit` from a session that is open
  unfoldable pub accept : Session → Text → ℕ → Result Error Session
  accept sess container now =
      signers_of verify sess container >>= accept_signers fold_eq sess container now

  -- `Service.Submit`
  unfoldable pub submit : Store → Text → Text → ℕ → Result Error Session × Store
  submit m id container now =
      let (got, m') = get m id now in
      elim got [
        | err e ↦ (err e, m')
        | ok sess ↦
            if not (is_pending sess.status)
            then (err session_closed, m')
            else elim (accept sess container now) [
              | err e ↦ (err e, m')
              | ok sess' ↦ elim (store_save m' sess') [
                | err e ↦ (err e, m')
                | ok m'' ↦ (ok sess', m'')
              ]
            ]
      ]
