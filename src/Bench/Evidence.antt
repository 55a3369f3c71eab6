-- ===== src/Bench/Evidence.antt =====
-- The evidence for the fairness of a comparison: internal/bench/fairness_runtime.go.
use parser_go.Prelude.{
  ℕ, suc, Text, text, text_eq, Bool, false, ◌&&◌, List, [], ◌∷◌, ◌++◌, if◌then◌else◌, length, ◌==◌,
  all,
}
use parser_go.Prelude.Int.{ℤ, pos, int_eq, itoa}
use parser_go.Prelude.Decimal.{format_int}
use parser_go.Bench.Types.{
  RuntimeControls, FairnessControlSide, FairnessControlEvidence, ExecutionRound, FairnessReport,
  IterationMetric,
}
use parser_go.Bench.Keys.{key_set, join_keys, dedupe_strings}

-- countPhase
unfoldable pub count_phase : List IterationMetric → Text → ℕ
count_phase [] phase = 0
count_phase (m ∷ ms) phase =
    let rest = count_phase ms phase in if text_eq m.phase phase then suc rest else rest

abbrev gather : (IterationMetric → List Text) → List IterationMetric → List Text
gather f [] = []
gather f (m ∷ ms) = f m ++ gather f ms

-- The loops over the metrics: what was applied, whether all of it was verified, and the details.
abbrev pub Observed : Type 0
Observed = Text × Bool × List Text

abbrev pub cache_verified : IterationMetric → Bool
cache_verified m = m.fairness.cache_verified

abbrev pub concurrency_verified : IterationMetric → Bool
concurrency_verified m = m.fairness.concurrency_verified

abbrev pub procs_verified : IterationMetric → Bool
procs_verified m = m.fairness.max_procs_verified

-- summarizeCacheEvidence
unfoldable pub summarize_cache_evidence : List IterationMetric → Observed
unfolding join_keys dedupe_strings
summarize_cache_evidence ms = if length ms == 0 then (text "not_run", false, []) else (
  join_keys (key_set (λ m. m.fairness.cache_action) ms),
  all cache_verified ms,
  dedupe_strings (gather (λ m. m.fairness.cache_details) ms),
)

-- summarizeConcurrencyEvidence
unfoldable pub summarize_concurrency_evidence : List IterationMetric → Observed
unfolding join_keys dedupe_strings
summarize_concurrency_evidence ms =
    if length ms == 0
    then (text "not_run", false, [])
    else let verified = all concurrency_verified ms in
      (
        (if verified then text "serialized" else text "not_proven")
            ++ (text ":" ++ join_keys (key_set (λ m. itoa m.fairness.concurrency) ms)),
        verified,
        dedupe_strings (gather (λ m. m.fairness.concurrency_details) ms),
      )

-- summarizeMaxProcsEvidence
unfoldable pub summarize_max_procs_evidence : List IterationMetric → Observed
unfolding join_keys dedupe_strings
summarize_max_procs_evidence ms =
    if length ms == 0
    then (text "not_run", false, [])
    else let verified = all procs_verified ms in
      (
        (if verified then text "taskset" else text "not_proven")
            ++ (text ":" ++ join_keys (key_set (λ m. m.fairness.cpu_set) ms)),
        verified,
        dedupe_strings (gather (λ m. m.fairness.max_procs_details) ms),
      )

abbrev side : Text → Observed → FairnessControlSide
side declared (applied, verified, details) = record {
  declared = declared;
  applied = applied;
  verified = verified;
  details = details;
}

abbrev observed_iterations : Text → ℕ → List Text
observed_iterations singular n =
    (text "observed " ++ (format_int n ++ (text " " ++ (singular ++ text " iteration(s)")))) ∷ []

-- iterationControlEvidence. `singular` is the name without its last s.
unfoldable pub iteration_control_evidence :
    Text → Text → ℤ → ℤ → ℕ → ℕ → Text → FairnessControlEvidence
iteration_control_evidence name singular baseline_declared rewrite_declared baseline_actual
      rewrite_actual applied =
    let baseline_verified = int_eq baseline_declared (pos baseline_actual) in
    let rewrite_verified = int_eq rewrite_declared (pos rewrite_actual) in
    record {
      control = name;
      baseline =
          side (itoa baseline_declared)
            (applied, baseline_verified, observed_iterations singular baseline_actual);
      rewrite =
          side (itoa rewrite_declared)
            (applied, rewrite_verified, observed_iterations singular rewrite_actual);
      symmetric = int_eq baseline_declared rewrite_declared;
      claimable =
          (baseline_verified && rewrite_verified) && int_eq baseline_declared rewrite_declared;
    }

-- cacheControlEvidence
unfoldable pub cache_control_evidence :
    RuntimeControls
    → RuntimeControls
    → List IterationMetric
    → List IterationMetric
    → FairnessControlEvidence
unfolding summarize_cache_evidence
cache_control_evidence a b baseline rewrite =
    let same = text_eq a.cache_posture b.cache_posture in
    let observed = summarize_cache_evidence baseline in
    let observed' = summarize_cache_evidence rewrite in
    record {
      control = text "cache_posture";
      baseline = side a.cache_posture observed;
      rewrite = side b.cache_posture observed';
      symmetric = same;
      claimable = (same && observed.1) && observed'.1;
    }

-- concurrencyControlEvidence
unfoldable pub concurrency_control_evidence :
    RuntimeControls
    → RuntimeControls
    → List IterationMetric
    → List IterationMetric
    → FairnessControlEvidence
unfolding summarize_concurrency_evidence
concurrency_control_evidence a b baseline rewrite =
    let same = int_eq a.concurrency b.concurrency in
    let observed = summarize_concurrency_evidence baseline in
    let observed' = summarize_concurrency_evidence rewrite in
    record {
      control = text "concurrency";
      baseline = side (itoa a.concurrency) observed;
      rewrite = side (itoa b.concurrency) observed';
      symmetric = same;
      claimable = (same && observed.1) && observed'.1;
    }

-- maxProcsControlEvidence
unfoldable pub max_procs_control_evidence :
    RuntimeControls
    → RuntimeControls
    → List IterationMetric
    → List IterationMetric
    → FairnessControlEvidence
unfolding summarize_max_procs_evidence
max_procs_control_evidence a b baseline rewrite =
    let same = int_eq a.max_procs b.max_procs in
    let observed = summarize_max_procs_evidence baseline in
    let observed' = summarize_max_procs_evidence rewrite in
    record {
      control = text "max_procs";
      baseline = side (itoa a.max_procs) observed;
      rewrite = side (itoa b.max_procs) observed';
      symmetric = same;
      claimable = (same && observed.1) && observed'.1;
    }

abbrev pub is_claimable : FairnessControlEvidence → Bool
is_claimable e = e.claimable

-- fairnessFromExecution
unfoldable pub fairness_from_execution :
    FairnessReport
    → RuntimeControls
    → RuntimeControls
    → List IterationMetric
    → List IterationMetric
    → List ExecutionRound
    → FairnessReport
unfolding count_phase iteration_control_evidence cache_control_evidence concurrency_control_evidence
    max_procs_control_evidence
fairness_from_execution declared a b baseline rewrite schedule =
    let evidence =
      iteration_control_evidence (text "warmup_iterations") (text "warmup_iteration")
        a.warmup_iterations b.warmup_iterations (count_phase baseline (text "warmup"))
        (count_phase rewrite (text "warmup")) (text "enforced")
      ∷ iteration_control_evidence (text "measured_iterations") (text "measured_iteration")
          a.measured_iterations b.measured_iterations (count_phase baseline (text "measured"))
          (count_phase rewrite (text "measured")) (text "enforced")
      ∷ cache_control_evidence a b baseline rewrite
      ∷ concurrency_control_evidence a b baseline rewrite
      ∷ max_procs_control_evidence a b baseline rewrite
      ∷ [] in
    record declared {
      execution_schedule = schedule;
      control_evidence = evidence;
      claimable = declared.symmetric && all is_claimable evidence;
    }
