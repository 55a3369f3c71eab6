-- ===== src/Api/Process.antt =====
-- processJob and failJob of internal/api/analysis_handler.go.
use parser_go.Prelude.{Text, text, false, Option, none, some, ltb, ◌==◌, ◌&&◌, if◌then◌else◌}
use parser_go.Prelude.Map
use parser_go.Clock.{Time, zero_time}
use parser_go.Job.{Job, JobError, State, running, succeeded, failed}
use parser_go.Job.Store
use parser_go.Analysis.Engine.{Analysis, ok, err, new_engine, analyze_bytes}
use parser_go.Summary.Compute.{Summary, compute_result}
use parser_go.Api.Names.{
  safe_terminal_error_message, engine_creation_failed, analysis_failed, malformed_dataset,
  summary_failed,
}
use parser_go.Api.Handler.{Env, Handler, QueuedJob, Workspace}

-- An update of the job's state and error; the creation time is left as it is.
abbrev pub state_update : Text → State → Option JobError → Time → Job
state_update job_id state error now = record {
  id = job_id;
  state = state;
  created_at = zero_time;
  updated_at = now;
  error = error;
}

-- How a job ends: with an error's code and its text, or with a summary.
pub data Ending (F : Type 0) : Type 0 where
  failure : Text → Text → Ending F
  success : Summary F → Ending F

module _ {F : Type 0} where
  -- The update to running, with which processJob begins.
  unfoldable pub begin_job : Text → Time → Handler F → Handler F
  begin_job job_id now h = record h {
    job_store = (Store.update (state_update job_id running none now) h.job_store).0;
  }

  -- failJob
  unfoldable pub fail_job : Text → Text → Text → Time → Handler F → Handler F
  fail_job job_id code message now h =
      let safe : JobError = record {
        code = code;
        message = safe_terminal_error_message code message;
      } in
      record h {
        job_store = (Store.update (state_update job_id failed (some safe) now) h.job_store).0;
      }

  abbrev pub set_summary : Text → Summary F → Handler F → Option (Workspace F) → Handler F
  set_summary job_id sum h none = h
  set_summary job_id sum h (some ws) = record h {
    workspaces = Map.put job_id (record ws { summary = some sum }) h.workspaces;
  }

  -- The end of processJob when the analysis succeeds.
  unfoldable pub succeed_job : Text → Summary F → Time → Handler F → Handler F
  succeed_job job_id sum now h =
      let h' = set_summary job_id sum h (Map.get job_id h.workspaces) in
      record h' {
        job_store = (Store.update (state_update job_id succeeded none now) h'.job_store).0;
      }

  unfoldable pub end_job : Text → Ending F → Time → Handler F → Handler F
  unfolding fail_job succeed_job
  end_job job_id (failure code message) now h = fail_job job_id code message now h
  end_job job_id (success sum) now h = succeed_job job_id sum now h

module _ {F : Type 0} (env : Env F) where
  abbrev summarize : Analysis → Ending F
  summarize a =
      if (a.matched == 0) && ltb 0 a.malformed
      then failure malformed_dataset (text "input contained no valid log lines")
      else (elim (compute_result env.floats env.order (some a)) [
        | none ↦ failure summary_failed (text "nil analysis result")
        | some sum ↦ success sum
      ])

  -- The analysis itself, which reads only the job's own data.
  unfoldable pub run_analysis : Text → Text → Text → Ending F
  unfolding new_engine compute_result
  run_analysis format profile input = elim (new_engine format profile) [
    | err e ↦ failure engine_creation_failed (env.describe e)
    | ok engine ↦ (elim (analyze_bytes (λ _. false) engine input) [
      | err e ↦ failure analysis_failed (env.describe e)
      | ok a ↦ summarize a
    ])
  ]

  -- What processJob does after its update to running.
  unfoldable pub finish_job : QueuedJob → Time → Handler F → Handler F
  finish_job work now h =
      end_job work.id (run_analysis work.format work.profile work.input_data) now h

  -- processJob with nothing in between
  unfoldable pub process_job : QueuedJob → Time → Time → Handler F → Handler F
  unfolding begin_job finish_job
  process_job work now now' h = finish_job work now' (begin_job work.id now h)
