-- ===== src/Bench/SameLog.antt =====
-- The service of internal/api and AnalyzeCorpus of internal/bench/analyze.go on the same log.
use mathlib.Core.List.{Perm}
use parser_go.Prelude.{
  Text, Bool, true, false, ◌&&◌, ◌≡◌, refl, ap, sym, ◌∙◌, subst, List, [], ◌∷◌, map, arith,
  Bool-cases, inl, inr, ◌⊎◌, is_empty, ltb, ◌==◌,
}
use parser_go.Prelude.Int.{int_eq, int_lt}
use parser_go.Prelude.Sorting.{IsSorted-map, sort-IsSorted_id}
use parser_go.Float.{Floats}
use parser_go.Analysis.Engine.{
  Analysis, Engine, AnalysisError, Outcome, ok, err, new_engine, analyze_bytes,
}
use parser_go.Summary.Counts.{Count, count_records}
use parser_go.Summary.Compute as Compute
use parser_go.Summary.Compute.{compute, compute_result, ranks_before}
use parser_go.Summary.Rank.{before_by}
use parser_go.Summary.Ranking.{compute-deterministic, ranked_requests-IsSorted}
use parser_go.Api.Handler.{Env}
use parser_go.Api.Process.{Ending, failure, success, run_analysis}
use parser_go.Bench.Types.{RankedRequest, ImplementationOutput}
use parser_go.Bench.CrossCheck.{
  Rounding, round_to2, ranked_entry, metrics_of, compare_implementation_output,
  service_summary_to_implementation_output,
}
use parser_go.Bench.CrossChecks.{SameMetrics, SameRows, compare_implementation_output-empty}
use parser_go.Bench.Corpus.{output, output_of, analyze_corpus, entry_before}

Outcome-cases :
    {A : Type 0} (o : Outcome A) → ((a : A) × (o ≡ ok a)) ⊎ ((e : AnalysisError) × (o ≡ err e))
Outcome-cases (ok a) = inl (a, refl)
Outcome-cases (err e) = inr (e, refl)

is_empty-nil : (xs : List Text) → is_empty xs ≡ true → xs ≡ []
is_empty-nil [] e = refl
is_empty-nil (x ∷ xs) e = cc

module _ {F : Type 0} where
  -- The summary of an ending, or another if it failed.
  abbrev summary_or : Compute.Summary F → Ending F → Compute.Summary F
  summary_or d (failure code message) = d
  summary_or d (success sum) = sum

  abbrev is_success : Ending F → Bool
  is_success (failure code message) = false
  is_success (success sum) = true

  -- What a successful analysis of the service has computed.
  record Analyzed (env : Env F) (format profile input : Text) (sum : Compute.Summary F)
      : Type 0 where
    engine : Engine
    analysis : Analysis
    new : new_engine format profile ≡ ok engine
    analyzed : analyze_bytes (λ _. false) engine input ≡ ok analysis
    summed : compute env.floats env.order analysis ≡ sum

  run_analysis-Analyzed :
      (env : Env F) (format profile input : Text) (sum : Compute.Summary F)
      → run_analysis env format profile input ≡ success sum
      → Analyzed env format profile input sum
  unfolding run_analysis compute_result
  run_analysis-Analyzed env format profile input sum e =
      elim (Outcome-cases (new_engine format profile)) [
        | inr (x, n) ↦
            let b : is_success (run_analysis env format profile input) ≡ false =
              rw (is_success, n) refl in
            absurd (ground (arith, b, e))
        | inl (engine, n) ↦ elim (Outcome-cases (analyze_bytes (λ _. false) engine input)) [
          | inr (x, q) ↦
              let b : is_success (run_analysis env format profile input) ≡ false =
                rw (is_success, n, q) refl in
              absurd (ground (arith, b, e))
          | inl (a, q) ↦ elim (Bool-cases ((a.matched == 0) && ltb 0 a.malformed)) [
            | inl m ↦
                let b : is_success (run_analysis env format profile input) ≡ false =
                  rw (is_success, n, q, m) refl in
                absurd (ground (arith, b, e))
            | inr m ↦
                let same : summary_or sum (run_analysis env format profile input)
                    ≡ compute env.floats env.order a =
                  rw (summary_or, n, q, m) refl in
                record {
                  engine = engine;
                  analysis = a;
                  new = n;
                  analyzed = q;
                  summed = sym same ∙ ap (summary_or sum) e;
                }
          ]
        ]
      ]

entry_before-ranked_entry :
    {F : Type 0} (fl : Floats F) (a b : Compute.RankedRequest F)
    → entry_before (ranked_entry a) (ranked_entry b) ≡ ranks_before fl a b
unfolding entry_before ranks_before before_by int_eq int_lt
entry_before-ranked_entry fl a b = refl

SameRows-refl :
    {F : Type 0} (floats : Rounding F) (rs : List (RankedRequest F)) → SameRows floats rs rs
SameRows-refl floats [] = tt
SameRows-refl floats (r ∷ rs) = (refl, refl, refl, SameRows-refl floats rs)

module _ {F : Type 0} (fl : Floats F) (order : List Count → List Count) where
  -- AnalyzeCorpus sorts what is sorted already.
  output_of-rows :
      (a : Analysis)
      → Perm (order (count_records a.records)) (count_records a.records)
      → (output_of a (compute fl order a)).summary.ranked_requests
        ≡ map ranked_entry (compute fl order a).ranked_requests
  unfolding output_of
  output_of-rows a p =
      sort-IsSorted_id entry_before (map ranked_entry (compute fl order a).ranked_requests) (
        IsSorted-map ranked_entry (ranks_before fl) entry_before (entry_before-ranked_entry fl) _
          (ranked_requests-IsSorted fl order a p))

  output_of-metrics :
      (floats : Rounding F) (a : Analysis)
      → floats.equal
          (round_to2 floats (compute fl order a).requests_per_sec)
          (round_to2 floats (compute fl order a).requests_per_sec)
        ≡ true
      → SameMetrics floats
          (output_of a (compute fl order a))
          (metrics_of floats (service_summary_to_implementation_output floats (compute fl order a)))
  unfolding service_summary_to_implementation_output output_of compute
  output_of-metrics floats a q = record {
    requests_total = refl;
    requests_per_sec = q;
    total_lines = refl;
    matched_lines = refl;
    filtered_lines = refl;
  }

  output_of-confirmed :
      (floats : Rounding F) (a : Analysis)
      → Perm (order (count_records a.records)) (count_records a.records)
      → floats.equal
          (round_to2 floats (compute fl order a).requests_per_sec)
          (round_to2 floats (compute fl order a).requests_per_sec)
        ≡ true
      → SameMetrics floats
          (output_of a (compute fl order a))
          (metrics_of floats (service_summary_to_implementation_output floats (compute fl order a)))
        × SameRows floats
            (output_of a (compute fl order a)).summary.ranked_requests
            (service_summary_to_implementation_output floats
              (compute fl order a)).summary.ranked_requests
  unfolding service_summary_to_implementation_output
  output_of-confirmed floats a p q =
      (output_of-metrics floats a q, rw (output_of-rows a p) (SameRows-refl floats _))

  analyze_corpus-output :
      (env : Env F) (format profile input : Text) (sum : Compute.Summary F)
      (done : Analyzed env format profile input sum)
      → analyze_corpus fl order input format profile
        ≡ output (output_of done.analysis (compute fl order done.analysis))
  unfolding analyze_corpus compute_result
  analyze_corpus-output env format profile input sum done =
      rw (analyze_corpus, done.new, done.analyzed) refl

-- Whenever the service's analysis of a log succeeds, AnalyzeCorpus succeeds on the same log too, and the
-- cross-check finds no mismatch between its output and the summary of the service, whatever orders
-- the two iterate their maps in, if the rounded rate equals itself.
pub same_log-no_mismatch :
    {F : Type 0} (env : Env F) (order : List Count → List Count) (floats : Rounding F)
    (label format profile input : Text) (sum : Compute.Summary F)
    → ((cs : List Count) → Perm (env.order cs) cs)
    → ((cs : List Count) → Perm (order cs) cs)
    → floats.equal (round_to2 floats sum.requests_per_sec) (round_to2 floats sum.requests_per_sec)
      ≡ true
    → run_analysis env format profile input ≡ success sum
    → (out : ImplementationOutput F) × (analyze_corpus env.floats order input format profile
        ≡ output out)
      × (compare_implementation_output floats label out
            (service_summary_to_implementation_output floats sum)
          ≡ [])
same_log-no_mismatch env order floats label format profile input sum p q finite e =
    let done = run_analysis-Analyzed env format profile input sum e in
    let a = done.analysis in
    let counts = count_records a.records in
    let same : compute env.floats order a ≡ sum =
      compute-deterministic env.floats order env.order a (q counts) (p counts) ∙ done.summed in
    let out = output_of a (compute env.floats order a) in
    (
      out,
      analyze_corpus-output env.floats order env format profile input sum done,
      is_empty-nil _ (
          (compare_implementation_output-empty floats label out
              (service_summary_to_implementation_output floats sum)).1
            (subst
              (λ s.
                SameMetrics floats out
                  (metrics_of floats (service_summary_to_implementation_output floats s))
                × SameRows floats out.summary.ranked_requests
                    (service_summary_to_implementation_output floats s).summary.ranked_requests)
              same
              (output_of-confirmed env.floats order floats a (q counts) (
                subst
                  (λ s.
                    floats.equal (round_to2 floats s.requests_per_sec)
                      (round_to2 floats s.requests_per_sec)
                    ≡ true)
                  (sym same) finite)))),
    )
