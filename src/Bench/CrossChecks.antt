-- ===== src/Bench/CrossChecks.antt =====
-- When the cross-check of internal/bench/crosscheck.go finds a match.
use parser_go.Prelude.{
  ℕ, suc, Text, text, text_eq_iff, true, List, [], ◌∷◌, ◌++◌, ◌≡◌, ◌↔◌, refl, arith, length,
  length-is_empty, is_empty, is_empty-append, ◌==◌, Bool-cases, inl, inr,
}
use parser_go.Prelude.Int.{ℤ, int_eq_iff}
use parser_go.Summary.Compute as Compute
use parser_go.Bench.Types.{RankedRequest, ImplementationOutput}
use parser_go.Bench.CrossCheck.{
  Rounding, VisibleReportMetrics, round_to2, compare_metrics, metrics_of, compare_ranked,
  compare_ints, compare_rates, ranked_mismatches, compare_implementation_output,
  compare_visible_report, service_summary_to_implementation_output, run_service_cross_check,
}

-- Two tests on lists of mismatches, by what each says.
both_empty :
    {P Q : Type 0} (xs ys : List Text)
    → ((is_empty xs ≡ true) ↔ P)
    → ((is_empty ys ≡ true) ↔ Q)
    → (is_empty (xs ++ ys) ≡ true) ↔ (P × Q)
both_empty xs ys p q =
    rw (is_empty-append xs ys)
      (λ e. (p.0 (ground arith), q.0 (ground arith)), λ h. ground (arith, p.1 h.0, q.1 h.1))

module _ {F : Type 0} (floats : Rounding F) where
  -- The same five numbers, with rates that round to the same hundredth.
  pub record SameMetrics (a : ImplementationOutput F) (b : VisibleReportMetrics F) : Type 0 where
    pub requests_total : a.summary.requests_total ≡ b.requests_total
    pub requests_per_sec :
        floats.equal
          (round_to2 floats a.summary.requests_per_sec)
          (round_to2 floats b.requests_per_sec)
        ≡ true
    pub total_lines : a.workload.total_lines ≡ b.total_lines
    pub matched_lines : a.workload.matched_lines ≡ b.matched_lines
    pub filtered_lines : a.workload.filtered_lines ≡ b.filtered_lines

  -- The same requests with the same counts, in the same order.
  abbrev pub SameRows : List (RankedRequest F) → List (RankedRequest F) → Type 0
  SameRows [] [] = Unit {0}
  SameRows [] (y ∷ b) = ⊥
  SameRows (x ∷ a) [] = ⊥
  SameRows (x ∷ a) (y ∷ b) =
      (x.method ≡ y.method) × (x.path ≡ y.path) × (x.count ≡ y.count) × SameRows a b

  is_empty-compare_ints :
      (label field other : Text) (m n : ℤ)
      → (is_empty (compare_ints label field other m n) ≡ true) ↔ (m ≡ n)
  is_empty-compare_ints label field other m n = ground (arith, int_eq_iff m n)

  is_empty-compare_rates :
      (label other : Text) (a b : F)
      → (is_empty (compare_rates floats label other a b) ≡ true)
        ↔ (floats.equal (round_to2 floats a) (round_to2 floats b) ≡ true)
  is_empty-compare_rates label other a b = ground arith

  metrics-iff-SameMetrics :
      (label other : Text) (a : ImplementationOutput F) (b : VisibleReportMetrics F)
      → (is_empty (compare_metrics floats label other a b) ≡ true) ↔ SameMetrics a b
  metrics-iff-SameMetrics label other a b =
      let (to, from) =
        both_empty
          (compare_ints label (text "requests_total") other a.summary.requests_total
            b.requests_total)
          _
          (is_empty-compare_ints label (text "requests_total") other a.summary.requests_total
            b.requests_total)
          (both_empty
            (compare_rates floats label other a.summary.requests_per_sec b.requests_per_sec) _
            (is_empty-compare_rates label other a.summary.requests_per_sec b.requests_per_sec)
            (both_empty
              (compare_ints label (text "total_lines") other a.workload.total_lines b.total_lines) _
              (is_empty-compare_ints label (text "total_lines") other a.workload.total_lines
                b.total_lines)
              (both_empty
                (compare_ints label (text "matched_lines") other a.workload.matched_lines
                  b.matched_lines)
                _
                (is_empty-compare_ints label (text "matched_lines") other a.workload.matched_lines
                  b.matched_lines)
                (is_empty-compare_ints label (text "filtered_lines") other a.workload.filtered_lines
                  b.filtered_lines)))) in
      (
        λ e.
            let (requests, (rate, (total, (matched, filtered)))) = to e in
            record {
              requests_total = requests;
              requests_per_sec = rate;
              total_lines = total;
              matched_lines = matched;
              filtered_lines = filtered;
            },
        λ s. from (
          s.requests_total,
          (s.requests_per_sec, (s.total_lines, (s.matched_lines, s.filtered_lines))),
        ),
      )

  rows→SameRows :
      (label : Text) (i : ℕ) (a b : List (RankedRequest F))
      → (length a == length b) ≡ true
      → is_empty (ranked_mismatches floats label i a b) ≡ true
      → SameRows a b
  unfolding ranked_mismatches
  rows→SameRows label i [] [] l e = tt
  rows→SameRows label i [] (y ∷ b) l e = ground arith
  rows→SameRows label i (x ∷ a) [] l e = ground arith
  rows→SameRows label i (x ∷ a) (y ∷ b) l e = (
    ground (arith, text_eq_iff x.method y.method),
    ground (arith, text_eq_iff x.path y.path),
    ground (arith, int_eq_iff x.count y.count),
    rows→SameRows label (suc i) a b (ground arith) (ground arith),
  )

  SameRows→rows :
      (label : Text) (i : ℕ) (a b : List (RankedRequest F))
      → SameRows a b
      → ((length a == length b) ≡ true) × (is_empty (ranked_mismatches floats label i a b) ≡ true)
  unfolding ranked_mismatches
  SameRows→rows label i [] [] s = (refl, refl)
  SameRows→rows label i [] (y ∷ b) s = absurd s
  SameRows→rows label i (x ∷ a) [] s = absurd s
  SameRows→rows label i (x ∷ a) (y ∷ b) s =
      let rest = SameRows→rows label (suc i) a b s.3 in
      (
        ground (arith, rest.0),
        ground (
          arith,
          rest.1,
          s.0,
          s.1,
          s.2,
          text_eq_iff x.method y.method,
          text_eq_iff x.path y.path,
          int_eq_iff x.count y.count,
        ),
      )

  ranked-iff-SameRows :
      (label other : Text) (a b : List (RankedRequest F))
      → (is_empty (compare_ranked floats label other a b) ≡ true) ↔ SameRows a b
  ranked-iff-SameRows label other a b = elim (Bool-cases (length a == length b)) [
    | inl e ↦ rw e (rows→SameRows label 0 a b e, λ s. (SameRows→rows label 0 a b s).1)
    | inr e ↦ rw e (λ h. cc, λ s. cc ((SameRows→rows label 0 a b s).0, e))
  ]

  -- The service and its page say the same as the benchmark.
  pub record Confirmed (benchmark : ImplementationOutput F) (sum : Compute.Summary F)
      (visible : VisibleReportMetrics F) (ranked : List (RankedRequest F)) : Type 0 where
    pub service_metrics :
        SameMetrics benchmark
          (metrics_of floats (service_summary_to_implementation_output floats sum))
    pub service_rows :
        SameRows benchmark.summary.ranked_requests
          (service_summary_to_implementation_output floats sum).summary.ranked_requests
    pub page_metrics : SameMetrics benchmark visible
    pub page_rows : SameRows benchmark.summary.ranked_requests ranked

  pub compare_implementation_output-empty :
      (label : Text) (want got : ImplementationOutput F)
      → (is_empty (compare_implementation_output floats label want got) ≡ true) ↔ (
          SameMetrics want (metrics_of floats got)
          × SameRows want.summary.ranked_requests got.summary.ranked_requests)
  unfolding compare_implementation_output
  compare_implementation_output-empty label want got =
      both_empty (compare_metrics floats label (text "service") want (metrics_of floats got)) _
        (metrics-iff-SameMetrics label (text "service") want (metrics_of floats got))
        (ranked-iff-SameRows label (text "service") want.summary.ranked_requests
          got.summary.ranked_requests)

  compare_visible_report-empty :
      (want : ImplementationOutput F) (visible : VisibleReportMetrics F)
      (ranked : List (RankedRequest F))
      → (is_empty (compare_visible_report floats want visible ranked) ≡ true)
        ↔ (SameMetrics want visible × SameRows want.summary.ranked_requests ranked)
  unfolding compare_visible_report
  compare_visible_report-empty want visible ranked =
      both_empty (compare_metrics floats (text "visible") (text "report") want visible) _
        (metrics-iff-SameMetrics (text "visible") (text "report") want visible)
        (ranked-iff-SameRows (text "visible") (text "report") want.summary.ranked_requests ranked)

  -- The cross-check matches exactly if the summary of the service and what its page shows both have the
  -- benchmark's totals, the benchmark's rate to the hundredth, and the benchmark's ranked requests
  -- with their counts, all of them and in the same order.
  pub cross_check-iff-Confirmed :
      (benchmark : ImplementationOutput F) (sum : Compute.Summary F)
      (visible : VisibleReportMetrics F) (ranked : List (RankedRequest F))
      → ((run_service_cross_check floats benchmark sum visible ranked).matches ≡ true)
        ↔ Confirmed benchmark sum visible ranked
  unfolding run_service_cross_check
  cross_check-iff-Confirmed benchmark sum visible ranked =
      let got = service_summary_to_implementation_output floats sum in
      let (to, from) =
        both_empty (compare_implementation_output floats (text "service") benchmark got)
          (compare_visible_report floats benchmark visible ranked)
          (compare_implementation_output-empty (text "service") benchmark got)
          (compare_visible_report-empty benchmark visible ranked) in
      rw
        (length-is_empty (
          compare_implementation_output floats (text "service") benchmark got
          ++ compare_visible_report floats benchmark visible ranked))
        (
          λ e.
              let ((m, r), (m', r')) = to e in
              record { service_metrics = m; service_rows = r; page_metrics = m'; page_rows = r' },
          λ c. from ((c.service_metrics, c.service_rows), (c.page_metrics, c.page_rows)),
        )

  pub SameRows-length : (a b : List (RankedRequest F)) → SameRows a b → length a ≡ length b
  SameRows-length [] [] s = refl
  SameRows-length [] (y ∷ b) s = absurd s
  SameRows-length (x ∷ a) [] s = absurd s
  SameRows-length (x ∷ a) (y ∷ b) s = omega (arith, SameRows-length a b s.3)
