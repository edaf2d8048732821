-- ===== src/Core/Historical/Verdicts.antt =====
-- historical.go, the verdict of one signer: when it is sure and positive, and how it carries over
-- to earlier instants.
use qoltanba.Prelude.{
  ℕ, ◌≤◌, ◌<◌, ◌≡◌, refl, ◌↔◌, ◌⊎◌, inl, inr, Bool, true, false, none, some, ok, is_empty, arith,
  Bool-cases, Option-cases, Result-cases, sym, ◌∙◌, List, [], ◌∷◌, All, all, not, ◌&&◌,
}
use qoltanba.Core.Contract.{Certificate, Signer, RevocationStatus, VerifyOutput, ValidateOutput}
use qoltanba.Core.Historical.{
  VerifyAtInput, PointInTimeVerdict, VerifyAtOutput, Verify, Validate, within_validity_at,
  revocation_from, revocation_at, status_query, assess_signer_at, assess_all, assess_prepare,
  instant_output, verify_at,
}

-- the window is known and holds the instant
abbrev pub IsInWindow : Certificate → ℕ → Type 0
IsInWindow c at =
    (nb : ℕ) × (na : ℕ) × (c.not_before ≡ some nb) × (c.not_after ≡ some na) × (nb ≤ at) × (at ≤ na)

-- what `revocationAt` passes: a status that is not marked as revoked and carries no library error,
-- whether or not it is determined, or one revoked at a known time after the instant
abbrev pub IsPassingAt : RevocationStatus → ℕ → Type 0
IsPassingAt st at =
    ((st.revoked ≡ false) × (st.lib_error ≡ none))
    ⊎ ((st.revoked ≡ true) × ((rt : ℕ) × (st.revocation_time ≡ some rt) × (at < rt)))

-- the certificate is at hand, and the revocation source answers with a status that passes
abbrev pub HasPassingStatus : Validate → VerifyAtInput → Certificate → ℕ → Type 0
HasPassingStatus validate i c at =
    (is_empty c.pem ≡ false)
    × ((res : ValidateOutput) × (validate (status_query i c at) ≡ ok res)
        × IsPassingAt res.status at)

revocation_from-IsPassingAt :
    (st : RevocationStatus) (at : ℕ) (v : PointInTimeVerdict)
    → ((revocation_from st at v).1 ≡ true) × ((revocation_from st at v).2 ≡ true)
    → IsPassingAt st at
unfolding revocation_from
revocation_from-IsPassingAt st at v h = elim (Bool-cases st.revoked) [
  | inr clear ↦ inl (clear, ground arith)
  | inl revoked ↦ elim (Option-cases st.revocation_time) [
    | inl unset ↦ absurd (ground arith)
    | inr (rt, set) ↦ inr (revoked, (rt, set, ground arith))
  ]
]

IsPassingAt-revocation_from :
    (st : RevocationStatus) (at : ℕ) (v : PointInTimeVerdict)
    → IsPassingAt st at
    → ((revocation_from st at v).1 ≡ true) × ((revocation_from st at v).2 ≡ true)
unfolding revocation_from
IsPassingAt-revocation_from st at v h = ground arith

revocation_at-HasPassingStatus :
    (validate : Validate) (c : Certificate) (at : ℕ) (i : VerifyAtInput) (v : PointInTimeVerdict)
    → ((revocation_at validate c at i v).1 ≡ true) × ((revocation_at validate c at i v).2 ≡ true)
    → HasPassingStatus validate i c at
unfolding revocation_at
revocation_at-HasPassingStatus validate c at i v h = elim (Bool-cases (is_empty c.pem)) [
  | inl empty ↦ absurd (ground arith)
  | inr pem ↦ elim (Result-cases (validate (status_query i c at))) [
    | inr (e, failed) ↦ absurd (ground arith)
    | inl (res, answered) ↦
        (pem, (res, answered, revocation_from-IsPassingAt res.status at v (ground arith)))
  ]
]

HasPassingStatus-revocation_at :
    (validate : Validate) (c : Certificate) (at : ℕ) (i : VerifyAtInput) (v : PointInTimeVerdict)
    → HasPassingStatus validate i c at
    → ((revocation_at validate c at i v).1 ≡ true) × ((revocation_at validate c at i v).2 ≡ true)
unfolding revocation_at
HasPassingStatus-revocation_at validate c at i v (pem, (res, answered, good)) =
    ground (arith, IsPassingAt-revocation_from res.status at v good)

within_validity_at-IsInWindow :
    (c : Certificate) (at : ℕ)
    → ((within_validity_at c at).0 ≡ true) × ((within_validity_at c at).1 ≡ true)
    → IsInWindow c at
unfolding within_validity_at
within_validity_at-IsInWindow c at h = elim (Option-cases c.not_before) [
  | inl unset ↦ absurd (ground arith)
  | inr (nb, set) ↦ elim (Option-cases c.not_after) [
    | inl unset ↦ absurd (ground arith)
    | inr (na, set') ↦ (nb, na, set, set', ground arith, ground arith)
  ]
]

IsInWindow-within_validity_at :
    (c : Certificate) (at : ℕ)
    → IsInWindow c at
    → ((within_validity_at c at).0 ≡ true) × ((within_validity_at c at).1 ≡ true)
unfolding within_validity_at
IsInWindow-within_validity_at c at h = ground arith

five_tests :
    (a b c d e : Bool)
    → (((a && b && c) ≡ true) × ((d && e) ≡ true))
      ↔ ((a ≡ true) × ((b ≡ true) × (d ≡ true)) × ((c ≡ true) × (e ≡ true)))
five_tests a b c d e = ground arith

-- The verdict on a signer at an instant is positive and determinate exactly when its signature
-- verified, the validity window of its certificate is known and holds the instant, the certificate
-- is at hand, and the revocation source answers with a status that is either not marked as revoked
-- and without a library error, determined or not, or a revocation at a known time after the instant.
pub assess_signer_at-sure_iff :
    (validate : Validate) (x : Signer) (at : ℕ) (i : VerifyAtInput)
    → (((assess_signer_at validate x at i).valid_at ≡ true)
        × ((assess_signer_at validate x at i).determinate ≡ true))
      ↔ ((x.valid ≡ true)
          × IsInWindow x.certificate at
          × HasPassingStatus validate i x.certificate at)
unfolding assess_signer_at
assess_signer_at-sure_iff validate x at i =
    let c = x.certificate in
    let w = within_validity_at c at in
    let v = assess_prepare x at in
    let r = revocation_at validate c at i v in
    let (to, from) = five_tests x.valid w.0 r.1 w.1 r.2 in
    (
      λ h.
          let parts = to h in
          (
            parts.0,
            within_validity_at-IsInWindow c at parts.1,
            revocation_at-HasPassingStatus validate c at i v parts.2,
          ),
      λ h. from (
        h.0,
        IsInWindow-within_validity_at c at h.1,
        HasPassingStatus-revocation_at validate c at i v h.2,
      ),
    )

IsPassingAt-earlier :
    (st : RevocationStatus) (t u : ℕ) → t ≤ u → IsPassingAt st u → IsPassingAt st t
IsPassingAt-earlier st t u le (inl clear) = inl clear
IsPassingAt-earlier st t u le (inr (revoked, (rt, set, lt))) = inr (revoked, (rt, set, omega arith))

-- A sure and positive verdict carries over to every earlier instant inside the validity window at
-- which the revocation source gives the same answer.
pub assess_signer_at-monotone :
    (validate : Validate) (x : Signer) (t u nb : ℕ) (i : VerifyAtInput)
    → t ≤ u
    → x.certificate.not_before ≡ some nb
    → nb ≤ t
    → validate (status_query i x.certificate t) ≡ validate (status_query i x.certificate u)
    → (assess_signer_at validate x u i).valid_at ≡ true
    → (assess_signer_at validate x u i).determinate ≡ true
    → ((assess_signer_at validate x t i).valid_at ≡ true)
      × ((assess_signer_at validate x t i).determinate ≡ true)
assess_signer_at-monotone validate x t u nb i le set lo same pos det =
    let (ok_sig, (nb', na, set', set'', lo', hi), (pem, (res, answered, good))) =
      (assess_signer_at-sure_iff validate x u i).0 (pos, det) in
    (assess_signer_at-sure_iff validate x t i).1 (
      ok_sig,
      (nb, na, set, set'', lo, omega arith),
      (pem, (res, same ∙ answered, IsPassingAt-earlier res.status t u le good)),
    )

four_tests :
    (a b c d : Bool)
    → (((a && b) ≡ true) × ((c && d) ≡ true))
      ↔ (((a ≡ true) × (c ≡ true)) × ((b ≡ true) × (d ≡ true)))
four_tests a b c d = ground arith

all-All :
    (xs : List Signer) (validate : Validate) (at : ℕ) (i : VerifyAtInput)
    → (((all (λ s. s.verdict.valid_at) (assess_all validate xs at i)) ≡ true)
        × (all (λ s. s.verdict.determinate) (assess_all validate xs at i) ≡ true))
      ↔ All
          (λ x.
            (x.valid ≡ true)
            × IsInWindow x.certificate at
            × HasPassingStatus validate i x.certificate at)
          xs
all-All [] validate at i = (λ h. tt, λ h. (refl, refl))
all-All (x ∷ xs) validate at i =
    let (to, from) = all-All xs validate at i in
    let (to', from') = assess_signer_at-sure_iff validate x at i in
    let v = assess_signer_at validate x at i in
    let rest = assess_all validate xs at i in
    let (split, join) =
      four_tests v.valid_at (all (λ s. s.verdict.valid_at) rest) v.determinate
        (all (λ s. s.verdict.determinate) rest) in
    (λ h. (to' (split h).0, to (split h).1), λ h. join (from' h.0, from h.1))

three_tests :
    (e a b : Bool)
    → (((not e && a) ≡ true) × (b ≡ true)) ↔ ((e ≡ false) × ((a ≡ true) × (b ≡ true)))
three_tests e a b = ground arith

is_empty-assess_all :
    (validate : Validate) (xs : List Signer) (at : ℕ) (i : VerifyAtInput)
    → is_empty (assess_all validate xs at i) ≡ is_empty xs
is_empty-assess_all validate [] at i = refl
is_empty-assess_all validate (x ∷ xs) at i = refl

-- `VerifyAt` at an instant that is set and not in the future: it calls the ordinary verification
-- with the time check and the revocation check off; if that answers, the outcome is valid and
-- determinate exactly when there is a signer, and every signer verified, was inside its known
-- validity window at the instant, and has a certificate whose status passes: either it is revoked at
-- a known time after the instant, or it is not marked as revoked and carries no library error. The
-- latter does not ask that the status be determined, so an "unknown" without an error passes too.
pub verify_at-sure_iff :
    (validate : Validate) (verify : Verify) (now at : ℕ) (i : VerifyAtInput) (vout : VerifyOutput)
    → i.at ≡ some at
    → at ≤ now
    → verify (record i.verify_input { check_cert_time = false; revocation_check = some false })
      ≡ ok vout
    → (out : VerifyAtOutput) × (verify_at validate verify now i ≡ ok out)
      × (((out.valid_at ≡ true) × (out.determinate ≡ true)) ↔ (
          (is_empty vout.signers ≡ false)
          × All
              (λ x.
                (x.valid ≡ true)
                × IsInWindow x.certificate at
                × HasPassingStatus validate i x.certificate at)
              vout.signers))
unfolding verify_at
verify_at-sure_iff validate verify now at i vout set past answered =
    let xs = vout.signers in
    let (to, from) = all-All xs validate at i in
    let rest = assess_all validate xs at i in
    let (split, join) =
      three_tests (is_empty rest) (all (λ s. s.verdict.valid_at) rest)
        (all (λ s. s.verdict.determinate) rest) in
    (
      instant_output vout rest at,
      ground arith,
      (
        λ h. (sym (is_empty-assess_all validate xs at i) ∙ (split h).0, to (split h).1),
        λ h. join (is_empty-assess_all validate xs at i ∙ h.0, from h.1),
      ),
    )

-- A flaw of `revocationAt`: a status that the source leaves undetermined, without a library error,
-- makes the verdict on a signer that verified inside its window positive and determinate.
pub assess_signer_at-trusts_unknown :
    (validate : Validate) (x : Signer) (at : ℕ) (i : VerifyAtInput) (res : ValidateOutput)
    → x.valid ≡ true
    → IsInWindow x.certificate at
    → is_empty x.certificate.pem ≡ false
    → validate (status_query i x.certificate at) ≡ ok res
    → res.status.revoked ≡ false
    → res.status.lib_error ≡ none
    → res.status.determinate ≡ false
    → ((assess_signer_at validate x at i).valid_at ≡ true)
      × ((assess_signer_at validate x at i).determinate ≡ true)
assess_signer_at-trusts_unknown validate x at i res verified window pem answered clear no_error
      unknown =
    (assess_signer_at-sure_iff validate x at i).1
      (verified, window, (pem, (res, answered, inl (clear, no_error))))
