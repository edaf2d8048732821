-- ===== src/Core/Tally.antt =====
-- internal/core/registry.go, VerifyRegistry: what the counters of a register say.
use qoltanba.Prelude.{
  ◌⊎◌, inl, inr, not, get_elem?, subst, Option-cases, refl, Option, ℕ, suc, ◌+◌, ◌≡◌, sym, ◌∙◌,
  if◌then◌else◌, Bool, true, false, ◌&&◌, none, some, List, [], ◌∷◌, ◌++◌, map, append-nil,
  append_assoc, length, Text, arith,
}
use qoltanba.Core.Contract.{
  ReportSigner, VerificationReport, ReportVerdict, valid, invalid, indeterminate, VerifyInput,
}
use qoltanba.Core.Registry.{
  BatchItem, RegistryItem, registry_signer, add_signers, fill_row_from_report, earlier, RegistryRow,
  RegistryOutput, with_report, row_of, count_row, rows_from, verify_registry,
}

-- the documents that are counted
abbrev pub counted : RegistryOutput → ℕ
counted out = out.valid_count + out.invalid_count + out.indeterminate_count + out.failed

abbrev pub is_valid : ReportVerdict → Bool
is_valid valid = true
is_valid invalid = false
is_valid indeterminate = false

abbrev pub is_invalid : ReportVerdict → Bool
is_invalid valid = false
is_invalid invalid = true
is_invalid indeterminate = false

abbrev pub is_open : ReportVerdict → Bool
is_open valid = false
is_open invalid = false
is_open indeterminate = true

-- the report of a result, where the result has an output with one
abbrev pub report_of : BatchItem → Option VerificationReport
report_of b = elim b.output [ none ↦ none | some out ↦ out.report ]

-- what a result says of its document: without an output or without a report, nothing is determined
abbrev pub verdict_of : BatchItem → ReportVerdict
verdict_of b = elim (report_of b) [ none ↦ indeterminate | some rep ↦ rep.verdict ]

abbrev pub has_output : BatchItem → Bool
has_output b = elim b.output [ none ↦ false | some _ ↦ true ]

Verdict-cases : (v : ReportVerdict) → (v ≡ valid) ⊎ ((v ≡ invalid) ⊎ (v ≡ indeterminate))
Verdict-cases valid = inl refl
Verdict-cases invalid = inr (inl refl)
Verdict-cases indeterminate = inr (inr refl)

-- the row of a result before its signers
abbrev blank_row : List RegistryItem → BatchItem → ReportVerdict → RegistryRow
blank_row items b v = record {
  index = b.index;
  ref = elim (get_elem? items b.index) [ none ↦ [] | some it ↦ it.ref ];
  verdict = v;
  signers = [];
  signed_at = none;
  reason = [];
  error = b.error;
}

-- how many results pass a test
abbrev pub tally : (BatchItem → Bool) → List BatchItem → ℕ
tally p [] = 0
tally p (b ∷ bs) = let n = tally p bs in if p b then suc n else n

-- a row says what its result says: the index with the caller's label at it, the verdict, the error,
-- and a signer for every signer of the report
abbrev pub IsRowOf : List RegistryItem → BatchItem → RegistryRow → Type 0
IsRowOf items b row =
    (row.index ≡ b.index)
    × (row.ref ≡ elim (get_elem? items b.index) [ none ↦ [] | some it ↦ it.ref ])
    × (row.verdict ≡ verdict_of b)
    × (row.error ≡ b.error)
    × (row.signers
        ≡ map registry_signer (elim (report_of b) [ none ↦ [] | some rep ↦ rep.signers ]))

-- a row for every result, in their order
abbrev pub AreRowsOf : List RegistryItem → List BatchItem → List RegistryRow → Type 0
AreRowsOf items [] [] = Unit
AreRowsOf items [] (_ ∷ _) = ⊥
AreRowsOf items (_ ∷ _) [] = ⊥
AreRowsOf items (b ∷ bs) (row ∷ rows) = IsRowOf items b row × AreRowsOf items bs rows

-- every counter has grown by the results that are its own
abbrev pub HasCounted : List BatchItem → RegistryOutput → RegistryOutput → Type 0
HasCounted bs before out =
    (out.valid_count ≡ before.valid_count + tally (λ b. has_output b && is_valid (verdict_of b)) bs)
    × (out.invalid_count
        ≡ before.invalid_count + tally (λ b. has_output b && is_invalid (verdict_of b)) bs)
    × (out.indeterminate_count
        ≡ before.indeterminate_count + tally (λ b. has_output b && is_open (verdict_of b)) bs)
    × (out.failed ≡ before.failed + tally (λ b. not (has_output b)) bs)

-- the counters before the first result
abbrev pub empty_register : RegistryOutput
empty_register = record {
  checked_at = 0;
  total = 0;
  valid_count = 0;
  invalid_count = 0;
  indeterminate_count = 0;
  failed = 0;
  rows = [];
}

tally_sum :
    (bs : List BatchItem)
    → tally (λ b. has_output b && is_valid (verdict_of b)) bs
        + tally (λ b. has_output b && is_invalid (verdict_of b)) bs
        + tally (λ b. has_output b && is_open (verdict_of b)) bs
        + tally (λ b. not (has_output b)) bs
      ≡ length bs
tally_sum [] = refl
tally_sum (b ∷ bs) = ground (arith, tally_sum bs)

tally_total :
    (bs : List BatchItem) (out : RegistryOutput)
    → HasCounted bs empty_register out
    → counted out ≡ length bs
tally_total bs out (v, n, i, f) = omega (arith, v, n, i, f, tally_sum bs)

module _ (trim_space : Text → Text) where
  add_signers_lem :
      (row : RegistryRow) (ss : List ReportSigner)
      → ((add_signers trim_space row ss).signers ≡ row.signers ++ map registry_signer ss)
        × ((add_signers trim_space row ss).index ≡ row.index)
        × ((add_signers trim_space row ss).ref ≡ row.ref)
        × ((add_signers trim_space row ss).verdict ≡ row.verdict)
        × ((add_signers trim_space row ss).error ≡ row.error)
  unfolding add_signers
  add_signers_lem row [] = (sym (append-nil row.signers), refl, refl, refl, refl)
  add_signers_lem row (s ∷ ss) =
      let row' = record row {
        signers = row.signers ++ registry_signer s ∷ [];
        signed_at = earlier row.signed_at s.signed_at;
      } in
      let (signers, index, ref, verdict, error) = add_signers_lem row' ss in
      (
        signers ∙ append_assoc row.signers (registry_signer s ∷ []) (map registry_signer ss),
        index,
        ref,
        verdict,
        error,
      )

  row_of-IsRowOf :
      (items : List RegistryItem) (b : BatchItem) → IsRowOf items b (row_of trim_space items b)
  unfolding row_of fill_row_from_report
  row_of-IsRowOf items b = elim (Option-cases b.output) [
    | inl lost ↦ (ground arith, ground arith, ground arith, ground arith, ground arith)
    | inr (out, given) ↦ elim (Option-cases out.report) [
      | inl bare ↦ (ground arith, ground arith, ground arith, ground arith, ground arith)
      | inr (rep, reported) ↦
          let parts = add_signers_lem (blank_row items b rep.verdict) rep.signers in
          elim (Verdict-cases rep.verdict) [
            | inl v ↦ (
              ground (arith, parts.1),
              ground (arith, parts.2),
              ground (arith, parts.3),
              ground (arith, parts.4),
              ground (arith, parts.0),
            )
            | inr other ↦ (
              ground (arith, parts.1),
              ground (arith, parts.2),
              ground (arith, parts.3),
              ground (arith, parts.4),
              ground (arith, parts.0),
            )
          ]
    ]
  ]

  count_row-HasCounted :
      (items : List RegistryItem) (b : BatchItem) (out : RegistryOutput)
      → HasCounted (b ∷ []) out (count_row trim_space b (row_of trim_space items b) out)
  unfolding count_row
  count_row-HasCounted items b out =
      let named = (row_of-IsRowOf items b).2 in
      elim (Option-cases b.output) [
        | inl lost ↦ (ground arith, ground arith, ground arith, ground arith)
        | inr (o, given) ↦ elim (Verdict-cases (row_of trim_space items b).verdict) [
          | inl v ↦ (ground arith, ground arith, ground arith, ground arith)
          | inr (inl v) ↦ (ground arith, ground arith, ground arith, ground arith)
          | inr (inr v) ↦ (ground arith, ground arith, ground arith, ground arith)
        ]
      ]

  rows_from-HasCounted :
      (items : List RegistryItem) (bs : List BatchItem) (out : RegistryOutput)
      → HasCounted bs out (rows_from trim_space items bs out)
  unfolding rows_from
  rows_from-HasCounted items [] out = (omega arith, omega arith, omega arith, omega arith)
  rows_from-HasCounted items (b ∷ bs) out =
      let row = row_of trim_space items b in
      let next = record (count_row trim_space b row out) { rows = out.rows ++ row ∷ [] } in
      let (v, n, i, f) = rows_from-HasCounted items bs next in
      let (v', n', i', f') = count_row-HasCounted items b out in
      (ground (arith, v, v'), ground (arith, n, n'), ground (arith, i, i'), ground (arith, f, f'))

  rows-rows_from :
      (items : List RegistryItem) (bs : List BatchItem) (out : RegistryOutput)
      → (rows_from trim_space items bs out).rows ≡ out.rows ++ map (row_of trim_space items) bs
  unfolding rows_from
  rows-rows_from items [] out = sym (append-nil out.rows)
  rows-rows_from items (b ∷ bs) out =
      let row = row_of trim_space items b in
      rows-rows_from items bs
        (record (count_row trim_space b row out) { rows = out.rows ++ row ∷ [] })
      ∙ append_assoc out.rows (row ∷ []) (map (row_of trim_space items) bs)

  map-AreRowsOf :
      (items : List RegistryItem) (bs : List BatchItem)
      → AreRowsOf items bs (map (row_of trim_space items) bs)
  map-AreRowsOf items [] = tt
  map-AreRowsOf items (b ∷ bs) = (row_of-IsRowOf items b, map-AreRowsOf items bs)

  -- The register has one row for every result of the batch, in the order of the results, with the
  -- caller's label, the error, the verdict and the signers of the result's report. Every result is
  -- counted once: as failed without an output, and otherwise as valid, invalid or indeterminate by its
  -- report's verdict, where an output without a report is indeterminate.
  pub verify_registry_lem :
      (items : List RegistryItem) (batch : List VerifyInput → List BatchItem) (now : ℕ)
      → AreRowsOf items
          (batch (map with_report items))
          (verify_registry trim_space items batch now).rows
        × HasCounted
            (batch (map with_report items))
            empty_register
            (verify_registry trim_space items batch now)
        × (counted (verify_registry trim_space items batch now)
            ≡ length (batch (map with_report items)))
  unfolding verify_registry
  verify_registry_lem items batch now =
      let results = batch (map with_report items) in
      let start : RegistryOutput = record empty_register {
        checked_at = now;
        total = length results;
      } in
      let counts = rows_from-HasCounted items results start in
      (
        subst (AreRowsOf items results) (sym (rows-rows_from items results start))
            (map-AreRowsOf items results),
        counts,
        tally_total results (verify_registry trim_space items batch now) counts,
      )
