-- ===== src/Checks/SameLog.antt =====
-- The service and AnalyzeCorpus on a concrete log.
use mathlib.Core.List.Perm
use parser_go.Prelude.{ℕ, text, text_eq, has_prefix, true, ◌≡◌, refl, [], ◌∷◌, ◌==◌}
use parser_go.Prelude.Decimal.{format_int, decimal}
use parser_go.Analysis.Entry.{parse_combined_log, parse_size, should_filter}
use parser_go.Analysis.Line.{match_line}
use parser_go.Analysis.Scanner.{drop_cr}
use parser_go.Analysis.Timestamp.{parse_timestamp}
use parser_go.Analysis.Engine.{Analysis, analyze_bytes, parse_line}
use parser_go.Summary.Compute as Compute
use parser_go.Summary.Compute.{compute}
use parser_go.Api.Process.{success, run_analysis}
use parser_go.Bench.Types.{ImplementationOutput}
use parser_go.Bench.CrossCheck.{
  round_to2, compare_implementation_output, service_summary_to_implementation_output,
}
use parser_go.Bench.Corpus.{output, analyze_corpus}
use parser_go.Bench.SameLog.{same_log-no_mismatch}
use parser_go.Checks.Data.{naturals, env, line_a}
use parser_go.Checks.CrossChecks.{rounding}

abbrev line_analysis : Analysis
line_analysis = record {
  input_bytes = 67;
  total_lines = 1;
  matched = 1;
  filtered = 0;
  malformed = 0;
  records =
      record {
        timestamp = 63138603336000000000;
        method = text "GET";
        path = text "/a";
        status = 200;
        size = 2326;
      }
      ∷ [];
}

abbrev line_summary : Compute.Summary ℕ
line_summary = compute naturals (λ cs. cs) line_analysis

rounded :
    (round_to2 rounding line_summary.requests_per_sec
      == round_to2 rounding line_summary.requests_per_sec)
    ≡ true
unfolding compute round_to2 format_int decimal
rounded = refl

succeeds : run_analysis env (text "combined") (text "default") line_a ≡ success line_summary
unfolding run_analysis analyze_bytes parse_line parse_combined_log match_line drop_cr
    parse_timestamp parse_size should_filter has_prefix text_eq text line_a
succeeds = refl

same_log-no_mismatch_example :
    (out : ImplementationOutput ℕ) × (analyze_corpus naturals
        (λ cs. cs)
        line_a
        (text "combined")
        (text "default")
      ≡ output out)
    × (compare_implementation_output rounding
          (text "service")
          out
          (service_summary_to_implementation_output rounding line_summary)
        ≡ [])
same_log-no_mismatch_example =
    same_log-no_mismatch env (λ cs. cs) rounding (text "service") (text "combined") (text "default")
      line_a line_summary (λ cs. Perm.refl cs) (λ cs. Perm.refl cs) rounded succeeds
