-- ===== src/Checks/Harness.antt =====
-- The theorems on internal/bench at concrete inputs.
use parser_go.Prelude.{ℕ, Text, text, text_eq, true, ◌≡◌, ◌↔◌, refl, List, [], ◌∷◌, ◌==◌}
use parser_go.Prelude.Int.{ℤ, pos, int_eq}
use parser_go.Bench.Types.{
  RuntimeControls, NormalizationRules, ImplementationOutput, FairnessReport, IterationMetric,
}
use parser_go.Bench.Parity.{FloatTests, compare_outputs}
use parser_go.Bench.Agreement.{Agreement, compare_outputs-passed}
use parser_go.Bench.Controls.{IsRunnable, validate_fairness, validate_fairness-claimable}
use parser_go.Bench.Evidence.{fairness_from_execution}
use parser_go.Bench.Claims.{IsProven, fairness_from_execution-IsProven}

abbrev exact : FloatTests ℕ
exact = record { equal = λ a b. a == b; within_tolerance = λ a b. a == b }

abbrev rules : NormalizationRules
rules = record {
  id = text "v1";
  summary_fields = text "requests_total" ∷ text "ranked_requests" ∷ [];
  workload_fields = text "row_count" ∷ [];
}

abbrev output : ℤ → ImplementationOutput ℕ
output rows = record {
  summary = record {
    requests_total = pos 1;
    requests_per_sec = 1;
    ranked_requests =
        record { path = text "/a"; method = text "GET"; count = pos 1; percentage = 100 } ∷ [];
  };
  workload = record {
    input_bytes = pos 70;
    total_lines = pos 1;
    matched_lines = pos 1;
    filtered_lines = pos 0;
    rejected_lines = pos 0;
    row_count = rows;
  };
}

compare_outputs-passed_example :
    ((compare_outputs exact rules (output (pos 1)) (output (pos 2))).passed ≡ true)
    ↔ Agreement exact rules (output (pos 1)) (output (pos 2))
compare_outputs-passed_example =
    compare_outputs-passed exact rules (output (pos 1)) (output (pos 2))

abbrev controls : RuntimeControls
controls = record {
  warmup_iterations = pos 0;
  measured_iterations = pos 1;
  cache_posture = text "warm";
  concurrency = pos 1;
  max_procs = pos 2;
}

abbrev as_is : Text → Text
as_is s = s

validate_fairness-claimable_example :
    ((validate_fairness as_is controls controls).claimable ≡ true)
    ↔ ((controls ≡ controls) × IsRunnable controls)
validate_fairness-claimable_example = validate_fairness-claimable as_is controls controls

abbrev metric : Text → IterationMetric
metric name = record {
  implementation = name;
  phase = text "measured";
  fairness = record {
    cache_action = text "warm_file_cache";
    cache_verified = true;
    cache_details = [];
    concurrency = pos 1;
    concurrency_verified = true;
    concurrency_details = [];
    max_procs_verified = true;
    cpu_set = text "0,1";
    max_procs_details = [];
  };
}

abbrev declared : FairnessReport
declared = validate_fairness as_is controls controls

abbrev runs : Text → List IterationMetric
runs name = metric name ∷ []

claimed :
    (fairness_from_execution declared controls controls
      (runs (text "baseline"))
      (runs (text "rewrite"))
      []).claimable
    ≡ true
unfolding fairness_from_execution validate_fairness text_eq text int_eq
claimed = refl

fairness_from_execution-IsProven_example :
    (declared.symmetric ≡ true)
    × IsProven controls (runs (text "baseline"))
    × IsProven controls (runs (text "rewrite"))
    × (controls ≡ controls)
fairness_from_execution-IsProven_example =
    fairness_from_execution-IsProven declared controls controls (runs (text "baseline"))
      (runs (text "rewrite")) [] claimed
