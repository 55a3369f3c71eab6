-- ===== src/Checks/CrossChecks.antt =====
-- The theorems on internal/bench/crosscheck.go at concrete inputs.
use parser_go.Prelude.{
  map, ℕ, zero, suc, ◌<◌, text, true, false, ◌≡◌, ◌↔◌, refl, List, [], ◌∷◌, length, ltb→lt, ◌==◌,
}
use parser_go.Prelude.Decimal.{format_int, decimal}
use parser_go.Summary.Compute as Compute
use parser_go.Bench.Types.{ImplementationOutput}
use parser_go.Bench.CrossCheck.{
  Rounding, metrics_of, ranked_entry, service_summary_to_implementation_output,
  run_service_cross_check,
}
use parser_go.Bench.CrossChecks.{Confirmed, cross_check-iff-Confirmed}
use parser_go.Bench.Capped.{capped_page-mismatch}
use parser_go.Api.Reports.Labels.{limit_ranked_requests}
use parser_go.Api.Reports.Pages.{report_detail, rows_from}
use parser_go.Checks.Data.{naturals}

abbrev pub rounding : Rounding ℕ
rounding = record { fixed2 = format_int; parse_float = decimal 0; equal = λ a b. a == b }

abbrev request : Compute.RankedRequest ℕ
request = record { path = text "/a"; method = text "GET"; count = 1; percentage = 1 }

abbrev requests : ℕ → List (Compute.RankedRequest ℕ)
requests zero = []
requests (suc n) = request ∷ requests n

abbrev summary_of : List (Compute.RankedRequest ℕ) → Compute.Summary ℕ
summary_of rs = record {
  input_bytes = 70;
  total_lines = 60;
  matched_lines = 60;
  filtered_lines = 0;
  row_count = 60;
  requests_total = 60;
  requests_per_sec = 2;
  ranked_requests = rs;
}

abbrev output : List (Compute.RankedRequest ℕ) → ImplementationOutput ℕ
output rs = service_summary_to_implementation_output rounding (summary_of rs)

cross_check-iff-Confirmed_example :
    ((run_service_cross_check rounding
        (output (requests 2))
        (summary_of (requests 2))
        (metrics_of rounding (output (requests 2)))
        (map ranked_entry (requests 1))).matches
      ≡ true)
    ↔ Confirmed rounding
        (output (requests 2))
        (summary_of (requests 2))
        (metrics_of rounding (output (requests 2)))
        (map ranked_entry (requests 1))
cross_check-iff-Confirmed_example =
    cross_check-iff-Confirmed rounding (output (requests 2)) (summary_of (requests 2))
      (metrics_of rounding (output (requests 2))) (map ranked_entry (requests 1))

many : 50 < length (requests 60)
many = ltb→lt 50 60 refl

fifty :
    length (map ranked_entry (requests 50))
    ≡ length (report_detail naturals (text "job_1700000000_5") (summary_of (requests 60))).rows
unfolding report_detail rows_from limit_ranked_requests
fifty = refl

capped_page-mismatch_example :
    (run_service_cross_check rounding
      (output (requests 60))
      (summary_of (requests 60))
      (metrics_of rounding (output (requests 60)))
      (map ranked_entry (requests 50))).matches
    ≡ false
capped_page-mismatch_example =
    capped_page-mismatch naturals rounding (text "job_1700000000_5") (summary_of (requests 60))
      (metrics_of rounding (output (requests 60))) (map ranked_entry (requests 50)) many fifty
