-- ===== src/Bench/Corpus.antt =====
-- AnalyzeCorpus of internal/bench/analyze.go, on the corpus's content.
use parser_go.Prelude.{
  Text, text_eq, text_lt, Bool, false, not, Option, none, some, List, map, if◌then◌else◌,
}
use parser_go.Prelude.Int.{pos, int_eq, int_lt}
use parser_go.Prelude.Sorting.{sort}
use parser_go.Float.{Floats}
use parser_go.Analysis.Engine.{Analysis, Outcome, ok, err, nil_reader, new_engine, analyze_bytes}
use parser_go.Summary.Counts.{Count}
use parser_go.Summary.Compute as Compute
use parser_go.Summary.Compute.{compute_result}
use parser_go.Bench.Types.{RankedRequest, ImplementationOutput}
use parser_go.Bench.CrossCheck.{ranked_entry}

-- The comparison that AnalyzeCorpus gives to sort.SliceStable.
unfoldable pub entry_before : {F : Type 0} → RankedRequest F → RankedRequest F → Bool
entry_before a b =
    if not (int_eq a.count b.count)
    then int_lt b.count a.count
    else if not (text_eq a.path b.path)
    then text_lt a.path b.path
    else text_lt a.method b.method

-- How AnalyzeCorpus can fail, less the reading of the file: the engine's error, or the error of Compute.
pub data CorpusError : Type 0 where
  engine_error : parser_go.Analysis.Engine.AnalysisError → CorpusError
  summary_error : CorpusError

pub data CorpusResult (F : Type 0) : Type 0 where
  output : ImplementationOutput F → CorpusResult F
  failed : CorpusError → CorpusResult F

unfoldable pub output_of : {F : Type 0} → Analysis → Compute.Summary F → ImplementationOutput F
unfolding sort entry_before
output_of a sum = record {
  summary = record {
    requests_total = pos sum.requests_total;
    requests_per_sec = sum.requests_per_sec;
    ranked_requests = sort entry_before (map ranked_entry sum.ranked_requests);
  };
  workload = record {
    input_bytes = pos a.input_bytes;
    total_lines = pos a.total_lines;
    matched_lines = pos a.matched;
    filtered_lines = pos a.filtered;
    rejected_lines = pos a.malformed;
    row_count = pos sum.row_count;
  };
}

module _ {F : Type 0} (fl : Floats F) (order : List Count → List Count) where
  abbrev pub output_with : Analysis → Option (Compute.Summary F) → CorpusResult F
  output_with a none = failed summary_error
  output_with a (some sum) = output (output_of a sum)

  -- AnalyzeCorpus; `order` is the order of iteration over the map of counts
  unfoldable pub analyze_corpus : Text → Text → Text → CorpusResult F
  unfolding new_engine compute_result output_of
  analyze_corpus input format profile = elim (new_engine format profile) [
    | err e ↦ failed (engine_error e)
    | ok engine ↦ (elim (analyze_bytes (λ _. false) engine input) [
      | err e ↦ failed (engine_error e)
      | ok a ↦ output_with a (compute_result fl order (some a))
    ])
  ]
