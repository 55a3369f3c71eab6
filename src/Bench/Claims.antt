-- ===== src/Bench/Claims.antt =====
-- What internal/bench/fairness_runtime.go demands before a performance claim, and how rounds alternate.
use mathlib.Core.Bool.{true≢false}
use mathlib.Core.List.{reverse}
use parser_go.Prelude.{
  ℕ, suc, ◌%◌, Text, text, Bool, true, false, ◌&&◌, not, List, [], length, ◌==◌, all, ◌≡◌, ◌≢◌,
  refl, sym, subst, arith, Bool-cases, inl, inr,
}
use parser_go.Prelude.Int.{pos, int_eq, int_eq_iff}
use parser_go.Bench.Types.{RuntimeControls, FairnessReport, ExecutionRound, IterationMetric}
use parser_go.Bench.Controls.{same_controls, controls-eq}
use parser_go.Bench.Rounds.{execution_order_for_round, scenario_starts_with_baseline, order_of}
use parser_go.Bench.Evidence.{
  count_phase, cache_verified, concurrency_verified, procs_verified, summarize_cache_evidence,
  summarize_concurrency_evidence, summarize_max_procs_evidence, iteration_control_evidence,
  cache_control_evidence, concurrency_control_evidence, max_procs_control_evidence,
  fairness_from_execution,
}

reverse-order_of : (b : Bool) → order_of (not b) ≡ reverse (order_of b)
reverse-order_of true = refl
reverse-order_of false = refl

-- Rounds that follow each other run the two implementations in opposite orders, whatever the scenario.
pub execution_order_for_round-alternates :
    (sum256 : Text → Text) (scenario_id : Text) (round : ℕ)
    → execution_order_for_round sum256 scenario_id (suc round)
      ≡ reverse (execution_order_for_round sum256 scenario_id round)
unfolding execution_order_for_round
execution_order_for_round-alternates sum256 scenario_id round = elim (Bool-cases (round % 2 == 0)) [
  | inl e ↦
      let odd : (suc round % 2 == 0) ≡ false = ground arith in
      rw (e, odd) (alternate (scenario_starts_with_baseline sum256 scenario_id))
  | inr e ↦
      let even : (suc round % 2 == 0) ≡ true = ground arith in
      rw (e, even) (reverse-order_of (scenario_starts_with_baseline sum256 scenario_id))
]
  where
    alternate : (b : Bool) → order_of b ≡ reverse (order_of (not b))
    alternate true = refl
    alternate false = refl

-- The runs of one side bear its declared controls out.
pub record IsProven (c : RuntimeControls) (ms : List IterationMetric) : Type 0 where
  pub warmups : c.warmup_iterations ≡ pos (count_phase ms (text "warmup"))
  pub measured : c.measured_iterations ≡ pos (count_phase ms (text "measured"))
  pub not_empty : ms ≢ []
  pub cache : all cache_verified ms ≡ true
  pub concurrency : all concurrency_verified ms ≡ true
  pub procs : all procs_verified ms ≡ true

-- The runs of a side as a test.
abbrev seen : RuntimeControls → List IterationMetric → Bool
seen c ms =
    int_eq c.warmup_iterations (pos (count_phase ms (text "warmup")))
    && (int_eq c.measured_iterations (pos (count_phase ms (text "measured")))
        && ((summarize_cache_evidence ms).1
            && ((summarize_concurrency_evidence ms).1 && (summarize_max_procs_evidence ms).1)))

cache-all :
    (ms : List IterationMetric)
    → (summarize_cache_evidence ms).1 ≡ (not (length ms == 0) && all cache_verified ms)
unfolding summarize_cache_evidence
cache-all ms = ground arith

concurrency-all :
    (ms : List IterationMetric)
    → (summarize_concurrency_evidence ms).1 ≡ (not (length ms == 0) && all concurrency_verified ms)
unfolding summarize_concurrency_evidence
concurrency-all ms = ground arith

procs-all :
    (ms : List IterationMetric)
    → (summarize_max_procs_evidence ms).1 ≡ (not (length ms == 0) && all procs_verified ms)
unfolding summarize_max_procs_evidence
procs-all ms = ground arith

nonempty : (ms : List IterationMetric) → not (length ms == 0) ≡ true → ms ≢ []
nonempty ms h e = true≢false (sym (subst (λ l. not (length l == 0) ≡ true) e h))

seen→IsProven : (c : RuntimeControls) (ms : List IterationMetric) → seen c ms ≡ true → IsProven c ms
seen→IsProven c ms h =
    let counted = int_eq_iff c.warmup_iterations (pos (count_phase ms (text "warmup"))) in
    let counted' = int_eq_iff c.measured_iterations (pos (count_phase ms (text "measured"))) in
    record {
      warmups = ground (arith, counted);
      measured = ground (arith, counted');
      not_empty = nonempty ms (ground (arith, cache-all ms));
      cache = ground (arith, cache-all ms);
      concurrency = ground (arith, concurrency-all ms);
      procs = ground (arith, procs-all ms);
    }

-- A claim of performance is allowed after the runs only if the declared controls were symmetric
-- and, for each side, there were exactly as many warm-up and measured runs as declared, at least one
-- run, and every run had its cache posture, its concurrency and its processors verified; and only if
-- the two sides declare the same controls.
pub fairness_from_execution-IsProven :
    (declared : FairnessReport) (a b : RuntimeControls) (baseline rewrite : List IterationMetric)
    (schedule : List ExecutionRound)
    → (fairness_from_execution declared a b baseline rewrite schedule).claimable ≡ true
    → (declared.symmetric ≡ true) × IsProven a baseline × IsProven b rewrite × (a ≡ b)
unfolding fairness_from_execution iteration_control_evidence cache_control_evidence
    concurrency_control_evidence max_procs_control_evidence same_controls
fairness_from_execution-IsProven declared a b baseline rewrite schedule h = (
  ground arith,
  seen→IsProven a baseline (ground arith),
  seen→IsProven b rewrite (ground arith),
  controls-eq a b (ground arith),
)
