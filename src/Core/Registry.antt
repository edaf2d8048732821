-- ===== src/Core/Registry.antt =====
-- internal/core/registry.go: the register of a batch of verifications. The results of the batch and
-- the trimming of white space are arguments. The summary and the document of a row, which the model of
-- a report leaves out, are left out here too.
use Prim.Native.String.{String}
use qoltanba.Prelude.{
  ℕ, suc, if◌then◌else◌, Bool, true, false, Option, none, some, List, [], ◌∷◌, ◌++◌, map, length,
  Text, get_elem?,
}
use qoltanba.Core.Contract.{
  DiagnosisStatus, fail, unknown, DiagnosisStep, ReportVerdict, valid, invalid, indeterminate,
  ReportSigner, VerificationReport, VerifyInput, VerifyOutput,
}

-- `BatchItemError`
pub record BatchItemError : Type 0 where
  pub kind : Text
  pub code : String
  pub message : String
  pub action : String

-- `BatchItem[VerifyOutput]`, whose status says which of `output` and `error` it has
pub record BatchItem : Type 0 where
  pub index : ℕ
  pub output : Option VerifyOutput
  pub error : Option BatchItemError

pub record RegistryItem : Type 0 where
  pub ref : Text
  pub verify_input : VerifyInput

pub record RegistrySigner : Type 0 where
  pub name : Text
  pub iin : Text
  pub bin : Text
  pub organization : Text

pub record RegistryRow : Type 0 where
  pub index : ℕ
  pub ref : Text
  pub verdict : ReportVerdict
  pub signers : List RegistrySigner
  pub signed_at : Option ℕ
  pub reason : Text
  pub error : Option BatchItemError

pub record RegistryOutput : Type 0 where
  pub checked_at : ℕ
  pub total : ℕ
  pub valid_count : ℕ
  pub invalid_count : ℕ
  pub indeterminate_count : ℕ
  pub failed : ℕ
  pub rows : List RegistryRow

abbrev is_problem : DiagnosisStatus → Bool
is_problem fail = true
is_problem unknown = true
is_problem _ = false

abbrev pub earlier : Option ℕ → Option ℕ → Option ℕ
earlier none t = t
earlier (some s) t = some s

-- the inputs of the batch: a report is requested whatever the caller set
abbrev pub with_report : RegistryItem → VerifyInput
with_report it = record it.verify_input { report = true }

abbrev pub registry_signer : ReportSigner → RegistrySigner
registry_signer s = record {
  name = s.name;
  iin = s.iin;
  bin = s.bin;
  organization = s.organization;
}

module _ (trim_space : Text → Text) where
  -- `firstProblemStep`
  unfoldable pub first_problem_step : List DiagnosisStep → Text
  first_problem_step [] = []
  first_problem_step (s ∷ ss) =
      let rest = first_problem_step ss in if is_problem s.status then trim_space s.step else rest

  -- the loop of `fillRowFromReport`
  unfoldable pub add_signers : RegistryRow → List ReportSigner → RegistryRow
  add_signers row [] = row
  add_signers row (s ∷ ss) =
      add_signers
        (record row {
          signers = row.signers ++ registry_signer s ∷ [];
          signed_at = earlier row.signed_at s.signed_at;
        })
        ss

  -- `fillRowFromReport`
  unfoldable pub fill_row_from_report : RegistryRow → Option VerificationReport → RegistryRow
  unfolding add_signers first_problem_step
  fill_row_from_report row none = record row { verdict = indeterminate }
  fill_row_from_report row (some rep) =
      let row' = add_signers (record row { verdict = rep.verdict }) rep.signers in
      elim rep.verdict [ valid ↦ row' | _ ↦ record row' { reason = first_problem_step rep.steps } ]

  -- the caller's label, where the index is in range
  abbrev ref_at : List RegistryItem → ℕ → Text
  ref_at items i = elim (get_elem? items i) [ none ↦ [] | some it ↦ it.ref ]

  abbrev kind_of : Option BatchItemError → Text
  kind_of none = []
  kind_of (some e) = e.kind

  -- one row
  unfoldable pub row_of : List RegistryItem → BatchItem → RegistryRow
  unfolding fill_row_from_report
  row_of items item =
      let row : RegistryRow = record {
        index = item.index;
        ref = ref_at items item.index;
        verdict = indeterminate;
        signers = [];
        signed_at = none;
        reason = [];
        error = item.error;
      } in
      elim item.output [
        | none ↦ record row { reason = kind_of item.error }
        | some out ↦ fill_row_from_report row out.report
      ]

  -- the counters after one row
  unfoldable pub count_row : BatchItem → RegistryRow → RegistryOutput → RegistryOutput
  count_row item row out = elim item.output [
    | none ↦ record out { failed = suc out.failed }
    | some _ ↦ elim row.verdict [
      | valid ↦ record out { valid_count = suc out.valid_count }
      | invalid ↦ record out { invalid_count = suc out.invalid_count }
      | indeterminate ↦ record out { indeterminate_count = suc out.indeterminate_count }
    ]
  ]

  -- the loop of `VerifyRegistry`, over the results of the batch
  unfoldable pub rows_from : List RegistryItem → List BatchItem → RegistryOutput → RegistryOutput
  unfolding row_of count_row
  rows_from items [] out = out
  rows_from items (b ∷ bs) out =
      let row = row_of items b in
      rows_from items bs (record (count_row b row out) { rows = out.rows ++ row ∷ [] })

  -- `VerifyRegistry`; the batch has one result for every item, so that their number is its `Total`
  unfoldable pub verify_registry :
      List RegistryItem → (List VerifyInput → List BatchItem) → ℕ → RegistryOutput
  unfolding rows_from
  verify_registry items batch now =
      let results = batch (map with_report items) in
      rows_from items results (record {
        checked_at = now;
        total = length results;
        valid_count = 0;
        invalid_count = 0;
        indeterminate_count = 0;
        failed = 0;
        rows = [];
      })
