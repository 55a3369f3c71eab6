-- ===== src/Api/Handler.antt =====
-- The Handler of internal/api/analysis_handler.go: its state, NewHandler, readiness and the
-- methods that keep the store, the workspaces, the queue and the idempotency keys together.
use parser_go.Prelude.{
  ℕ, zero, suc, ◌+◌, ◌*◌, Text, text_eq, Bool, true, false, Option, List, [], ◌∷◌, if◌then◌else◌,
}
use parser_go.Prelude.Int.{ℤ, pos, negsuc, positive_or}
use parser_go.Prelude.Map.{Map}
use parser_go.Clock.{second}
use parser_go.Float.{Floats}
use parser_go.Job.{State, succeeded, failed}
use parser_go.Job.Store.{Store}
use parser_go.Analysis.Engine.{AnalysisError}
use parser_go.Summary.Counts.{Count}
use parser_go.Summary.Compute.{Summary}

-- What the handler computes with and does not implement: floating point, the order of iteration
-- over a map, SHA-256 in hexadecimal, the texts that fmt gives to errors.
pub record Env (F : Type 0) : Type 0 where
  pub floats : Floats F
  pub order : List Count → List Count
  pub sha256 : Text → Text
  pub describe : AnalysisError → Text

-- Workspace; DataPath is never set
pub record Workspace (F : Type 0) : Type 0 where
  pub id : Text
  pub job_id : Text
  pub summary : Option (Summary F)

-- queuedJob
pub record QueuedJob : Type 0 where
  pub id : Text
  pub format : Text
  pub profile : Text
  pub input_data : Text

-- idempotencyRecord
pub record IdempotencyRecord : Type 0 where
  pub fingerprint : Text
  pub job_id : Text

-- Handler, less the logger, the test hook and the clock, whose readings are arguments. The queue
-- is a channel of capacity `queue_limit`.
pub record Handler (F : Type 0) : Type 0 where
  pub job_store : Store
  pub max_input_size : ℕ
  pub queue_limit : ℕ
  pub worker_limit : ℕ
  -- the goroutines that startWorkers has started
  pub workers : ℕ
  pub retry_after_seconds : ℕ
  pub retention : ℕ
  pub ready : Bool
  pub workspaces : Map (Workspace F)
  pub job_queue : List QueuedJob
  pub idempotency : Map IdempotencyRecord

-- HandlerConfig, less the logger, the store and the clock
pub record HandlerConfig : Type 0 where
  pub max_input_size : ℤ
  pub queue_limit : ℤ
  pub worker_limit : ℤ
  pub retention : ℤ

abbrev pub default_max_input_size : ℕ
default_max_input_size = 10 * 1024 * 1024

abbrev pub default_queue_limit : ℕ
default_queue_limit = 2

abbrev pub default_worker_limit : ℕ
default_worker_limit = 1

abbrev pub default_retention : ℕ
default_retention = 24 * 3600 * second

abbrev pub worker_limit_of : ℤ → ℕ
worker_limit_of (negsuc n) = 0
worker_limit_of (pos zero) = default_worker_limit
worker_limit_of (pos (suc n)) = suc n

-- startWorkers: the number of goroutines that its loop starts, one a round. Each of them takes a job from
-- the queue, processes it to its end, and takes the next.
unfoldable pub start_workers : ℕ → ℕ
start_workers zero = 0
start_workers (suc i) = start_workers i + 1

-- isExpirableJobState
abbrev pub is_expirable_job_state : State → Bool
is_expirable_job_state succeeded = true
is_expirable_job_state failed = true
is_expirable_job_state _ = false

-- The loop of deleteIdempotencyForJob.
unfoldable pub without_job : Text → Map IdempotencyRecord → Map IdempotencyRecord
without_job job_id [] = []
without_job job_id (e ∷ m) =
    let rest = without_job job_id m in if text_eq e.value.job_id job_id then rest else e ∷ rest

module _ {F : Type 0} where
  -- NewHandler over a new store, which is how it is called
  unfoldable pub new_handler : HandlerConfig → Handler F
  unfolding start_workers
  new_handler cfg = record {
    job_store = [];
    max_input_size = positive_or default_max_input_size cfg.max_input_size;
    queue_limit = positive_or default_queue_limit cfg.queue_limit;
    worker_limit = worker_limit_of cfg.worker_limit;
    workers = start_workers (worker_limit_of cfg.worker_limit);
    retry_after_seconds = 1;
    retention = positive_or default_retention cfg.retention;
    ready = false;
    workspaces = [];
    job_queue = [];
    idempotency = [];
  }

  -- SetReady
  unfoldable pub set_ready : Bool → Handler F → Handler F
  set_ready ready h = record h { ready = ready }

  -- deleteIdempotencyForJob
  unfoldable pub delete_idempotency_for_job : Text → Handler F → Handler F
  unfolding without_job
  delete_idempotency_for_job job_id h = record h { idempotency = without_job job_id h.idempotency }
