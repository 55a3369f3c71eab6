-- ===== src/Bench/Types.antt =====
-- The records of internal/bench/types.go that the comparison and the fairness report use.
use parser_go.Prelude.{ℕ, Text, Bool, List}
use parser_go.Prelude.Int.{ℤ}

-- RuntimeControls
pub record RuntimeControls : Type 0 where
  pub warmup_iterations : ℤ
  pub measured_iterations : ℤ
  pub cache_posture : Text
  pub concurrency : ℤ
  pub max_procs : ℤ

-- NormalizationRules
pub record NormalizationRules : Type 0 where
  pub id : Text
  pub summary_fields : List Text
  pub workload_fields : List Text

-- RankedRequest
pub record RankedRequest (F : Type 0) : Type 0 where
  pub path : Text
  pub method : Text
  pub count : ℤ
  pub percentage : F

-- CanonicalSummary
pub record CanonicalSummary (F : Type 0) : Type 0 where
  pub requests_total : ℤ
  pub requests_per_sec : F
  pub ranked_requests : List (RankedRequest F)

-- WorkloadAccounting
pub record WorkloadAccounting : Type 0 where
  pub input_bytes : ℤ
  pub total_lines : ℤ
  pub matched_lines : ℤ
  pub filtered_lines : ℤ
  pub rejected_lines : ℤ
  pub row_count : ℤ

-- ImplementationOutput
pub record ImplementationOutput (F : Type 0) : Type 0 where
  pub summary : CanonicalSummary F
  pub workload : WorkloadAccounting

-- The values that DiffEntry holds, for which the source has `any`.
pub data Value (F : Type 0) : Type 0 where
  int : ℤ → Value F
  float : F → Value F
  ranking : List (RankedRequest F) → Value F

-- DiffEntry
pub record DiffEntry (F : Type 0) : Type 0 where
  pub field : Text
  pub baseline : Value F
  pub rewrite : Value F
  pub message : Text

-- ParityReport
pub record ParityReport (F : Type 0) : Type 0 where
  pub passed : Bool
  pub normalization_id : Text
  pub summary_diffs : List (DiffEntry F)
  pub workload_diffs : List (DiffEntry F)
  pub performance_claims_allowed : Bool

-- FairnessControlSide
pub record FairnessControlSide : Type 0 where
  pub declared : Text
  pub applied : Text
  pub verified : Bool
  pub details : List Text

-- FairnessControlEvidence
pub record FairnessControlEvidence : Type 0 where
  pub control : Text
  pub baseline : FairnessControlSide
  pub rewrite : FairnessControlSide
  pub symmetric : Bool
  pub claimable : Bool

-- ExecutionRound
pub record ExecutionRound : Type 0 where
  pub round : ℕ
  pub phase : Text
  pub order : List Text

-- FairnessReport
pub record FairnessReport : Type 0 where
  pub required_controls : List Text
  pub symmetric : Bool
  pub differences : List Text
  pub claimable : Bool
  pub control_evidence : List FairnessControlEvidence
  pub execution_schedule : List ExecutionRound

-- IterationFairnessEvidence, less the round, the order and the overridden environment
pub record IterationFairnessEvidence : Type 0 where
  pub cache_action : Text
  pub cache_verified : Bool
  pub cache_details : List Text
  pub concurrency : ℤ
  pub concurrency_verified : Bool
  pub concurrency_details : List Text
  pub max_procs_verified : Bool
  pub cpu_set : Text
  pub max_procs_details : List Text

-- IterationMetric, less the times and the resources measured
pub record IterationMetric : Type 0 where
  pub implementation : Text
  pub phase : Text
  pub fairness : IterationFairnessEvidence
