-- ===== src/Multisign/Session.antt =====
-- multisign.go: participants, collected signatures, and when a session is complete.
-- `fold_eq` stands for strings.EqualFold.
use qoltanba.Prelude.{
  ℕ, suc, leb, ◌==◌, if◌then◌else◌, Bool, true, false, not, ◌&&◌, Option, none, some, List, [], ◌∷◌,
  ◌++◌, length, any, Text, codes, text_eq, is_empty,
}
use qoltanba.Core.Contract.{SignatureFormat, ReportSigner}

pub data Status : Type 0 where
  pending complete expired : Status

pub record Required : Type 0 where
  pub iin : Text
  pub bin : Text
  pub role : Text
  pub label : Text

pub record Signature : Type 0 where
  pub iin : Text
  pub bin : Text
  pub name : Text
  pub roles : List Text
  pub signed_at : ℕ
  pub satisfies : Option ℕ  -- `none` is -1

pub record Session : Type 0 where
  pub id : Text
  pub status : Status
  pub format : SignatureFormat
  pub detached : Bool
  pub document : Text
  pub container : Text
  pub required : List Required
  pub min_signers : ℕ  -- a negative number is read as 0
  pub collected : List Signature
  pub subject : Text
  pub created_at : ℕ
  pub expires_at : ℕ

-- `Required.empty`
unfoldable pub required_empty : Required → Bool
required_empty r = is_empty r.iin && is_empty r.bin && is_empty r.role

-- `identityOf`
unfoldable pub identity_of : Text → Text → Text → Text
identity_of iin bin name =
    if not (is_empty iin) then codes "iin:" ++ iin else codes "bin:" ++ bin ++ codes "|" ++ name

abbrev pub signature_identity : Signature → Text
signature_identity c = identity_of c.iin c.bin c.name

abbrev pub signer_identity : ReportSigner → Text
signer_identity s = identity_of s.iin s.bin s.name

abbrev pub is_slot : ℕ → Option ℕ → Bool
is_slot idx none = false
is_slot idx (some i) = i == idx

-- `Session.satisfied`
unfoldable pub satisfied : List Signature → ℕ → Bool
satisfied cs idx = any (λ c. is_slot idx c.satisfies) cs

-- the loop of `Session.Remaining`, from index `i` on
unfoldable pub remaining_from : List Signature → ℕ → List Required → List Required
unfolding satisfied
remaining_from cs i [] = []
remaining_from cs i (r ∷ rs) =
    let rest = remaining_from cs (suc i) rs in if satisfied cs i then rest else r ∷ rest

-- `Session.Remaining`
unfoldable pub remaining : Session → List Required
unfolding remaining_from
remaining s = remaining_from s.collected 0 s.required

-- `Session.complete`
unfoldable pub is_complete : Session → Bool
unfolding remaining
is_complete s =
    if not (is_empty s.required)
    then is_empty (remaining s)
    else leb s.min_signers (length s.collected)

-- `alreadyCollected`
unfoldable pub already_collected : List Signature → ReportSigner → Bool
already_collected cs x = any (λ c. text_eq (signature_identity c) (signer_identity x)) cs

-- `containsAll`; the map of present identities is asked only for membership
unfoldable pub contains_all : List ReportSigner → List Signature → Bool
contains_all xs [] = true
contains_all xs (c ∷ cs) =
    any (λ x. text_eq (signer_identity x) (signature_identity c)) xs && contains_all xs cs

module _ (fold_eq : Text → Text → Bool) where
  -- `Required.matches`, with `hasRole`
  unfoldable pub matches : Required → ReportSigner → Bool
  matches r s =
      if not (is_empty r.iin) && not (text_eq r.iin s.iin)
      then false
      else if not (is_empty r.bin) && not (text_eq r.bin s.bin)
      then false
      else if not (is_empty r.role) && not (any (λ role. fold_eq role r.role) s.roles)
      then false
      else true

  -- `matchesAnyRequirement`
  unfoldable pub matches_any_requirement : List Required → ReportSigner → Bool
  matches_any_requirement rs s = any (λ r. matches r s) rs

  -- the loop of `record`: the first requirement, from index `i` on, that is open and matches
  unfoldable pub first_open : List Signature → ReportSigner → ℕ → List Required → Option ℕ
  unfolding satisfied
  first_open cs s i [] = none
  first_open cs s i (r ∷ rs) =
      let rest = first_open cs s (suc i) rs in
      if not (satisfied cs i) && matches r s then some i else rest

  -- `Service.record`
  unfoldable pub record_signature : List Required → List Signature → ReportSigner → ℕ → Signature
  unfolding first_open
  record_signature rs cs s now = record {
    iin = s.iin;
    bin = s.bin;
    name = s.name;
    roles = s.roles;
    signed_at = elim s.signed_at [ none ↦ now | some t ↦ t ];
    satisfies = first_open cs s 0 rs;
  }
