-- ===== src/Core/Explain/Steps.antt =====
-- explain.go, the loops: which signers leave a step of the diagnosis mild, that is neither failed
-- nor undeterminable.
use qoltanba.Prelude.{
  ℕ, ◌≤◌, ◌≡◌, ◌↔◌, Bool, true, false, if◌then◌else◌, Option, none, some, List, [], ◌∷◌, All, arith,
}
use Prim.Native.String.{String}
use qoltanba.Core.Contract.{fail, warn, DiagnosisStep, RevocationStatus, Signer}
use qoltanba.Core.Explain.{
  severity, merge, time_merge, time_loop, flag_loop, revocation_merge, revocation_loop,
}

abbrev pub IsMild : DiagnosisStep → Type 0
IsMild s = severity s.status ≤ 2

-- the window of a certificate is known and, if the time is checked, holds the instant
abbrev pub IsWithin : Bool → ℕ → Option ℕ → Option ℕ → Type 0
IsWithin check now (some nb) (some na) = check ≡ true → (nb ≤ now) × (now ≤ na)
IsWithin check now (some nb) none = ⊥
IsWithin check now none na = ⊥

-- the revocation status was established, and is not "revoked"
abbrev pub IsNotRevoked : Option RevocationStatus → Type 0
IsNotRevoked none = ⊥
IsNotRevoked (some r) = (r.determinate ≡ true) × (r.revoked ≡ false)

time_merge-IsMild :
    (check : Bool) (now : ℕ) (nb na : Option ℕ) (s : DiagnosisStep)
    → IsMild (time_merge (if check then fail else warn) now nb na s)
      ↔ (IsMild s × IsWithin check now nb na)
unfolding time_merge severity
time_merge-IsMild check now (some nb) (some na) s = ground arith
time_merge-IsMild check now (some nb) none s = ground arith
time_merge-IsMild check now none na s = ground arith

pub time_loop-IsMild :
    (check : Bool) (now : ℕ) (xs : List Signer) (s : DiagnosisStep)
    → IsMild (time_loop (if check then fail else warn) now xs s) ↔ (
        IsMild s
        × All (λ x. IsWithin check now x.certificate.not_before x.certificate.not_after) xs)
unfolding time_loop
time_loop-IsMild check now [] s = (λ h. (h, tt), λ h. h.0)
time_loop-IsMild check now (x ∷ xs) s =
    let nb = x.certificate.not_before in
    let na = x.certificate.not_after in
    let next = time_merge (if check then fail else warn) now nb na s in
    let (to, from) = time_loop-IsMild check now xs next in
    let (to', from') = time_merge-IsMild check now nb na s in
    (λ h. ((to' (to h).0).0, ((to' (to h).0).1, (to h).1)), λ h. from (from' (h.0, h.1.0), h.1.1))

-- merging with a warning keeps a step mild
pub flag_loop-warn :
    (flag : Signer → Bool) (a b : String) (xs : List Signer) (s : DiagnosisStep)
    → IsMild s
    → IsMild (flag_loop flag warn a b xs s)
unfolding flag_loop severity
flag_loop-warn flag a b [] s h = h
flag_loop-warn flag a b (x ∷ xs) s h =
    flag_loop-warn flag a b xs (if flag x then s else merge warn a b s) (ground arith)

flag_round :
    (b : Bool) (m n : String) (s : DiagnosisStep)
    → IsMild (if b then s else merge fail m n s) ↔ (IsMild s × (b ≡ true))
unfolding merge severity
flag_round b m n s = ground arith

pub flag_loop-fail :
    (flag : Signer → Bool) (a b : String) (xs : List Signer) (s : DiagnosisStep)
    → IsMild (flag_loop flag fail a b xs s) ↔ (IsMild s × All (λ x. flag x ≡ true) xs)
unfolding flag_loop
flag_loop-fail flag a b [] s = (λ h. (h, tt), λ h. h.0)
flag_loop-fail flag a b (x ∷ xs) s =
    let (to, from) = flag_loop-fail flag a b xs (if flag x then s else merge fail a b s) in
    let (to', from') = flag_round (flag x) a b s in
    (λ h. ((to' (to h).0).0, ((to' (to h).0).1, (to h).1)), λ h. from (from' (h.0, h.1.0), h.1.1))

revocation_merge-IsMild :
    (r : Option RevocationStatus) (s : DiagnosisStep)
    → IsMild (revocation_merge r s) ↔ (IsMild s × IsNotRevoked r)
unfolding revocation_merge severity
revocation_merge-IsMild none s = ground arith
revocation_merge-IsMild (some r) s = ground arith

pub revocation_loop-IsMild :
    (xs : List Signer) (n : ℕ) (s : DiagnosisStep)
    → IsMild (revocation_loop xs n s).1 ↔ (IsMild s × All (λ x. IsNotRevoked x.revocation) xs)
unfolding revocation_loop
revocation_loop-IsMild [] n s = (λ h. (h, tt), λ h. h.0)
revocation_loop-IsMild (x ∷ xs) n s =
    let (to, from) = revocation_loop-IsMild xs _ (revocation_merge x.revocation s) in
    let (to', from') = revocation_merge-IsMild x.revocation s in
    (λ h. ((to' (to h).0).0, ((to' (to h).0).1, (to h).1)), λ h. from (from' (h.0, h.1.0), h.1.1))
