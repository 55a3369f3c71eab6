-- ===== src/Api/Detail.antt =====
-- The endpoints of internal/api/analysis_handler.go that read: liveness, readiness, and a job's
-- status, summary and report.
use parser_go.Prelude.{
  Text, text, text_eq, trim_prefix, split, Bool, Option, none, some, List, [], ◌∷◌, if◌then◌else◌,
  not,
}
use parser_go.Prelude.Map
use parser_go.Clock.{Time}
use parser_go.Job.{Job, JobError, queued, running, failed, expired, is_expired}
use parser_go.Job.Store
use parser_go.Summary.Compute.{Summary}
use parser_go.Api.Http.{
  Request, Response, ApiError, raw, job_status, summary, report, respond, write_error, not_found,
  not_complete, expired_code, service_unavailable,
}
use parser_go.Api.Names.{is_valid_job_id}
use parser_go.Api.Handler.{Handler, Workspace}
use parser_go.Api.Jobs.{expire_eligible_jobs}

abbrev pub is_get : Request → Bool
is_get r = text_eq r.method (text "GET")

abbrev api_error : Option JobError → Option ApiError
api_error none = none
api_error (some e) = some (record { code = e.code; message = e.message })

module _ {F : Type 0} where
  abbrev pub method_not_allowed : Response F
  method_not_allowed = write_error 405 service_unavailable (text "method not allowed")

  -- handleHealthz
  unfoldable pub handle_healthz : Request → Response F
  handle_healthz r =
      if is_get r then respond 200 (raw (text "{\"status\":\"ok\"}")) else method_not_allowed

  -- handleReadyz
  unfoldable pub handle_readyz : Request → Handler F → Response F
  handle_readyz r h =
      if not (is_get r)
      then method_not_allowed
      else if not h.ready
      then respond 503 (raw (text "{\"ready\":false}"))
      else respond 200 (raw (text "{\"ready\":true}"))

  -- writeJobStatus
  unfoldable pub job_status_response : Job → Response F
  job_status_response j = respond 200 (
      job_status (record {
        id = j.id;
        state = j.state;
        created_at = j.created_at;
        updated_at = j.updated_at;
        error = api_error j.error;
      }))

  -- handleJobStatus
  unfoldable pub handle_job_status : Request → Job → Response F
  unfolding job_status_response
  handle_job_status r j = if is_get r then job_status_response j else method_not_allowed

  -- The summary of a job's workspace, if both are there.
  abbrev pub workspace_summary : Option (Workspace F) → Option (Summary F)
  workspace_summary none = none
  workspace_summary (some ws) = ws.summary

  unfoldable pub stored_summary : Text → Handler F → Option (Summary F)
  stored_summary id h = workspace_summary (Map.get id h.workspaces)

  -- A nil pointer is dereferenced where `none` is returned: the error of a failed job must be set.
  abbrev failed_summary : Option JobError → Option (Response F)
  failed_summary none = none
  failed_summary (some e) = some (write_error 409 e.code e.message)

  abbrev failed_report : Option JobError → Option (Response F)
  failed_report none = none
  failed_report (some e) = some (write_error 409 e.code (text "analysis failed"))

  abbrev summary_found : Option (Summary F) → Response F
  summary_found none = write_error 404 not_found (text "summary not found")
  summary_found (some sum) = respond 200 (summary sum)

  abbrev report_found : Text → Option (Summary F) → Response F
  report_found id none = write_error 404 not_found (text "report not found")
  report_found id (some sum) = respond 200 (report id sum)

  -- handleSummary
  unfoldable pub handle_summary : Request → Job → Handler F → Option (Response F)
  unfolding stored_summary
  handle_summary r j h = if not (is_get r) then some method_not_allowed else (elim j.state [
    | queued ↦ some (write_error 409 not_complete (text "analysis not complete"))
    | running ↦ some (write_error 409 not_complete (text "analysis not complete"))
    | failed ↦ failed_summary j.error
    | _ ↦ some (summary_found (stored_summary j.id h))
  ])

  -- handleReport
  unfoldable pub handle_report : Request → Job → Handler F → Option (Response F)
  unfolding stored_summary
  handle_report r j h = if not (is_get r) then some method_not_allowed else (elim j.state [
    | queued ↦ some (write_error 409 not_complete (text "analysis not complete"))
    | running ↦ some (write_error 409 not_complete (text "analysis not complete"))
    | failed ↦ failed_report j.error
    | expired ↦ some (write_error 410 expired_code (text "analysis has expired"))
    | _ ↦ some (report_found j.id (stored_summary j.id h))
  ])

  abbrev pub route : Request → Handler F → Job → List Text → Option (Response F)
  route r h j [] = some (handle_job_status r j)
  route r h j (endpoint ∷ _) =
      if text_eq endpoint (text "summary")
      then handle_summary r j h
      else if text_eq endpoint (text "report")
      then handle_report r j h
      else some (write_error 404 not_found (text "unknown endpoint"))

  abbrev pub job_found : Request → Handler F → List Text → Option Job → Option (Response F)
  job_found r h endpoint none = some (write_error 404 not_found (text "job not found"))
  job_found r h endpoint (some j) =
      if is_expired j.state
      then some (write_error 410 expired_code (text "analysis has expired"))
      else route r h j endpoint

  abbrev pub detail : Request → Handler F → List Text → Option (Response F)
  detail r h [] = some (write_error 404 not_found (text "job ID required"))
  detail r h (id ∷ endpoint) =
      if text_eq id []
      then some (write_error 404 not_found (text "job ID required"))
      else if not (is_valid_job_id id)
      then some (write_error 404 not_found (text "invalid job ID"))
      else job_found r h endpoint (Store.get id h.job_store)

  -- handleAnalysisDetail. No response means a panic on a nil pointer.
  unfoldable pub handle_analysis_detail :
      Time → Request → Handler F → Handler F × Option (Response F)
  unfolding handle_job_status handle_summary handle_report expire_eligible_jobs
  handle_analysis_detail now r h0 =
      let h = expire_eligible_jobs now h0 in
      (
        h,
        (if not h.ready
            then some (write_error 503 service_unavailable (text "service not ready"))
            else detail r h (split b'/' (trim_prefix r.path (text "/v1/analyses/")))),
      )
