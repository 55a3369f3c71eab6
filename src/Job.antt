-- ===== src/Job.antt =====
-- internal/job/job.go: the jobs and the store that holds them. The store's mutex makes each method
-- one step. `Update` replaces the stored pointer by a copy, so a job that a reader holds does not
-- change, and jobs are values here.
pub mod Store
pub mod Laws
pub mod Updates
use parser_go.Prelude.{Text, Bool, true, false, Option, none, some}
use parser_go.Clock.{Time}

-- job.State. `unset` is the empty string, which an update uses to leave the state as it is.
pub data State : Type 0 where
  unset queued running succeeded failed expired : State

-- job.Error
pub record JobError : Type 0 where
  pub code : Text
  pub message : Text

-- job.Job
pub record Job : Type 0 where
  pub id : Text
  pub state : State
  pub created_at : Time
  pub updated_at : Time
  pub error : Option JobError

-- The Boolean tests on states that the sources write with == and !=.
abbrev pub is_unset : State → Bool
is_unset unset = true
is_unset _ = false

abbrev pub is_succeeded : State → Bool
is_succeeded succeeded = true
is_succeeded _ = false

abbrev pub is_failed : State → Bool
is_failed failed = true
is_failed _ = false

abbrev pub is_expired : State → Bool
is_expired expired = true
is_expired _ = false

-- queued or running
abbrev pub is_pending : State → Bool
is_pending queued = true
is_pending running = true
is_pending _ = false
