-- ===== src/Bench/CrossCheck.antt =====
-- internal/bench/crosscheck.go: the comparison of a benchmark's output with what the service and its
-- report page say of the same log. The requests over HTTP are not modelled, nor is the reading of the
-- page by regular expressions: the summary, the visible numbers and the visible rows are arguments.
use parser_go.Prelude.{
  map, ℕ, suc, Text, text, text_eq, Bool, ◌||◌, not, List, [], ◌∷◌, ◌++◌, if◌then◌else◌, length,
  ◌==◌,
}
use parser_go.Prelude.Int.{ℤ, pos, int_eq, itoa}
use parser_go.Prelude.Decimal.{format_int}
use parser_go.Summary.Compute as Compute
use parser_go.Bench.Types.{RankedRequest, ImplementationOutput}

-- What crosscheck.go does with float64.
pub record Rounding (F : Type 0) : Type 0 where
  -- fmt.Sprintf("%.2f", x)
  pub fixed2 : F → Text
  -- strconv.ParseFloat(s, 64) of such a text
  pub parse_float : Text → F
  -- ==
  pub equal : F → F → Bool

-- VisibleReportMetrics
pub record VisibleReportMetrics (F : Type 0) : Type 0 where
  pub requests_total : ℤ
  pub requests_per_sec : F
  pub total_lines : ℤ
  pub matched_lines : ℤ
  pub filtered_lines : ℤ

-- What runServiceCrossCheck finds out.
pub record CrossCheck : Type 0 where
  pub mismatches : List Text
  pub matches : Bool

-- "<label> <field> mismatch: benchmark=<a> <other>=<b>"
abbrev pub mismatch : Text → Text → Text → Text → Text → Text
mismatch label field other a b =
    label
    ++ (text " "
        ++ (field
            ++ (text " mismatch: benchmark=" ++ (a ++ (text " " ++ (other ++ (text "=" ++ b)))))))

abbrev pub compare_ints : Text → Text → Text → ℤ → ℤ → List Text
compare_ints label field other a b =
    if not (int_eq a b) then mismatch label field other (itoa a) (itoa b) ∷ [] else []

-- The end of runServiceCrossCheck.
abbrev pub cross_check_of : List Text → CrossCheck
cross_check_of mismatches = record { mismatches = mismatches; matches = length mismatches == 0 }

-- A ranked request of a summary, as the benchmark writes it.
abbrev pub ranked_entry : {F : Type 0} → Compute.RankedRequest F → RankedRequest F
ranked_entry r = record {
  path = r.path;
  method = r.method;
  count = pos r.count;
  percentage = r.percentage;
}

module _ {F : Type 0} (floats : Rounding F) where
  -- roundTo2
  unfoldable pub round_to2 : F → F
  round_to2 value = floats.parse_float (floats.fixed2 value)

  abbrev pub compare_rates : Text → Text → F → F → List Text
  compare_rates label other a b =
      if not (floats.equal (round_to2 a) (round_to2 b))
      then mismatch label (text "requests_per_sec") other (floats.fixed2 (round_to2 a))
          (floats.fixed2 (round_to2 b))
        ∷ []
      else []

  abbrev pub same_request : RankedRequest F → RankedRequest F → Bool
  same_request a b = not (
      not (text_eq a.method b.method)
      || (not (text_eq a.path b.path) || not (int_eq a.count b.count)))

  -- The loop over two lists of the same length.
  unfoldable pub ranked_mismatches :
      Text → ℕ → List (RankedRequest F) → List (RankedRequest F) → List Text
  ranked_mismatches label i [] b = []
  ranked_mismatches label i (x ∷ a) [] = []
  ranked_mismatches label i (x ∷ a) (y ∷ b) =
      let rest = ranked_mismatches label (suc i) a b in
      if not (same_request x y)
      then (label ++ (text " ranked request mismatch at " ++ format_int i)) ∷ rest
      else rest

  abbrev pub compare_ranked :
      Text → Text → List (RankedRequest F) → List (RankedRequest F) → List Text
  compare_ranked label other a b =
      if not (length a == length b)
      then mismatch label (text "ranked request length") other (format_int (length a))
          (format_int (length b))
        ∷ []
      else ranked_mismatches label 0 a b

  -- The five numbers that both comparisons begin with.
  abbrev pub compare_metrics :
      Text → Text → ImplementationOutput F → VisibleReportMetrics F → List Text
  compare_metrics label other a b =
      compare_ints label (text "requests_total") other a.summary.requests_total b.requests_total
      ++ (compare_rates label other a.summary.requests_per_sec b.requests_per_sec
          ++ (compare_ints label (text "total_lines") other a.workload.total_lines b.total_lines
              ++ (compare_ints label (text "matched_lines") other a.workload.matched_lines
                    b.matched_lines
                  ++ compare_ints label (text "filtered_lines") other a.workload.filtered_lines
                      b.filtered_lines)))

  -- The numbers of an output that are compared.
  abbrev pub metrics_of : ImplementationOutput F → VisibleReportMetrics F
  metrics_of got = record {
    requests_total = got.summary.requests_total;
    requests_per_sec = got.summary.requests_per_sec;
    total_lines = got.workload.total_lines;
    matched_lines = got.workload.matched_lines;
    filtered_lines = got.workload.filtered_lines;
  }

  -- compareImplementationOutput
  unfoldable pub compare_implementation_output :
      Text → ImplementationOutput F → ImplementationOutput F → List Text
  unfolding round_to2 ranked_mismatches
  compare_implementation_output label want got =
      compare_metrics label (text "service") want (metrics_of got)
      ++ compare_ranked label (text "service") want.summary.ranked_requests
          got.summary.ranked_requests

  -- compareVisibleReport
  unfoldable pub compare_visible_report :
      ImplementationOutput F → VisibleReportMetrics F → List (RankedRequest F) → List Text
  unfolding round_to2 ranked_mismatches
  compare_visible_report benchmark visible ranked =
      compare_metrics (text "visible") (text "report") benchmark visible
      ++ compare_ranked (text "visible") (text "report") benchmark.summary.ranked_requests ranked

  -- serviceSummaryToImplementationOutput
  unfoldable pub service_summary_to_implementation_output :
      Compute.Summary F → ImplementationOutput F
  service_summary_to_implementation_output sum = record {
    summary = record {
      requests_total = pos sum.requests_total;
      requests_per_sec = sum.requests_per_sec;
      ranked_requests = map ranked_entry sum.ranked_requests;
    };
    workload = record {
      input_bytes = pos sum.input_bytes;
      total_lines = pos sum.total_lines;
      matched_lines = pos sum.matched_lines;
      filtered_lines = pos sum.filtered_lines;
      rejected_lines = pos 0;
      row_count = pos sum.row_count;
    };
  }

  -- runServiceCrossCheck, from the benchmark's output, the service's summary and what the page shows
  unfoldable pub run_service_cross_check :
      ImplementationOutput F
      → Compute.Summary F
      → VisibleReportMetrics F
      → List (RankedRequest F)
      → CrossCheck
  unfolding compare_implementation_output compare_visible_report
      service_summary_to_implementation_output
  run_service_cross_check benchmark sum visible ranked = cross_check_of (
      compare_implementation_output (text "service") benchmark
        (service_summary_to_implementation_output sum)
      ++ compare_visible_report benchmark visible ranked)
