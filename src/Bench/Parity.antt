-- ===== src/Bench/Parity.antt =====
-- CompareOutputs of internal/bench/parity.go.
use parser_go.Prelude.{
  Text, text, text_eq, Bool, true, false, ◌&&◌, ◌||◌, not, List, [], ◌∷◌, ◌++◌, if◌then◌else◌,
  length, ◌==◌,
}
use parser_go.Prelude.Int.{ℤ, int_eq}
use parser_go.Bench.Types.{
  NormalizationRules, RankedRequest, CanonicalSummary, WorkloadAccounting, ImplementationOutput,
  Value, int, float, ranking, DiffEntry, ParityReport,
}

-- What parity.go does with float64.
pub record FloatTests (F : Type 0) : Type 0 where
  -- reflect.DeepEqual of two float64
  pub equal : F → F → Bool
  -- math.Abs(a-b) <= 1e-9
  pub within_tolerance : F → F → Bool

module _ {F : Type 0} (floats : FloatTests F) where
  -- almostEqual
  unfoldable pub almost_equal : F → F → Bool
  almost_equal a b = if floats.equal a b then true else floats.within_tolerance a b

  -- diff
  abbrev pub diff : Text → Value F → Value F → DiffEntry F
  diff field baseline rewrite = record {
    field = field;
    baseline = baseline;
    rewrite = rewrite;
    message = text "values differ";
  }

  -- The loop of rankedRequestsEqual, over two lists of the same length.
  unfoldable pub ranked_loop : List (RankedRequest F) → List (RankedRequest F) → Bool
  unfolding almost_equal
  ranked_loop [] b = true
  ranked_loop (x ∷ a) [] = true
  ranked_loop (x ∷ a) (y ∷ b) =
      if not (text_eq x.path y.path)
        || (not (text_eq x.method y.method)
            || (not (int_eq x.count y.count) || not (almost_equal x.percentage y.percentage)))
      then false
      else ranked_loop a b

  -- rankedRequestsEqual
  unfoldable pub ranked_requests_equal : List (RankedRequest F) → List (RankedRequest F) → Bool
  unfolding ranked_loop
  ranked_requests_equal a b = if not (length a == length b) then false else ranked_loop a b

  abbrev pub compare_ints : Text → ℤ → ℤ → List (DiffEntry F)
  compare_ints field a b = if not (int_eq a b) then diff field (int a) (int b) ∷ [] else []

  -- The first switch.
  unfoldable pub summary_diff : Text → CanonicalSummary F → CanonicalSummary F → List (DiffEntry F)
  unfolding almost_equal ranked_requests_equal
  summary_diff field a b =
      if text_eq field (text "requests_total")
      then compare_ints field a.requests_total b.requests_total
      else if text_eq field (text "requests_per_sec")
      then if not (almost_equal a.requests_per_sec b.requests_per_sec)
        then diff field (float a.requests_per_sec) (float b.requests_per_sec) ∷ []
        else []
      else if text_eq field (text "ranked_requests")
      then if not (ranked_requests_equal a.ranked_requests b.ranked_requests)
        then diff field (ranking a.ranked_requests) (ranking b.ranked_requests) ∷ []
        else []
      else []

  -- The second switch.
  unfoldable pub workload_diff : Text → WorkloadAccounting → WorkloadAccounting → List (DiffEntry F)
  workload_diff field a b =
      if text_eq field (text "input_bytes")
      then compare_ints field a.input_bytes b.input_bytes
      else if text_eq field (text "total_lines")
      then compare_ints field a.total_lines b.total_lines
      else if text_eq field (text "matched_lines")
      then compare_ints field a.matched_lines b.matched_lines
      else if text_eq field (text "filtered_lines")
      then compare_ints field a.filtered_lines b.filtered_lines
      else if text_eq field (text "rejected_lines")
      then compare_ints field a.rejected_lines b.rejected_lines
      else if text_eq field (text "row_count")
      then compare_ints field a.row_count b.row_count
      else []

  -- A loop over the tracked fields.
  unfoldable pub collect : (Text → List (DiffEntry F)) → List Text → List (DiffEntry F)
  collect differs [] = []
  collect differs (field ∷ fields) = differs field ++ collect differs fields

  -- CompareOutputs
  unfoldable pub compare_outputs :
      NormalizationRules → ImplementationOutput F → ImplementationOutput F → ParityReport F
  unfolding summary_diff workload_diff collect
  compare_outputs rules baseline rewrite =
      let summaries =
        collect (λ f. summary_diff f baseline.summary rewrite.summary) rules.summary_fields in
      let workloads =
        collect (λ f. workload_diff f baseline.workload rewrite.workload) rules.workload_fields in
      let passed = (length summaries == 0) && (length workloads == 0) in
      record {
        passed = passed;
        normalization_id = rules.id;
        summary_diffs = summaries;
        workload_diffs = workloads;
        performance_claims_allowed = passed;
      }
