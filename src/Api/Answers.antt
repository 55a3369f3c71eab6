-- ===== src/Api/Answers.antt =====
-- What the endpoints of internal/api/analysis_handler.go that read a job answer, when the service is in
-- a state that it can come to.
use parser_go.Prelude.{
  Text, true, ◌≡◌, refl, List, [], ◌∷◌, arith, Option, none, some, is_some, Bool-cases, inl, inr,
}
use parser_go.Prelude.Map
use parser_go.Clock.{Time}
use parser_go.Job.{Job, succeeded, is_expired}
use parser_go.Job.Store
use parser_go.Api.Http.{Request}
use parser_go.Api.Handler.{Env, Handler, Workspace, QueuedJob}
use parser_go.Api.Jobs.{expire_eligible_jobs}
use parser_go.Api.Detail.{
  handle_summary, handle_report, handle_analysis_detail, workspace_summary, route, job_found,
  detail,
}
use parser_go.Api.Invariant.{Inv, consistent}
use parser_go.Api.Lifecycle.{expire_eligible_jobs-Inv}
use parser_go.Api.World.{World, Reach, Reach-Inv}

module _ {F : Type 0} where
  handle_summary-answers :
      (r : Request) (j : Job) (h : Handler F) (space : Option (Workspace F))
      → consistent (some j) space ≡ true
      → is_some (handle_summary r j h) ≡ true
  unfolding handle_summary
  handle_summary-answers r j h space c = ground arith

  handle_report-answers :
      (r : Request) (j : Job) (h : Handler F) (space : Option (Workspace F))
      → consistent (some j) space ≡ true
      → is_some (handle_report r j h) ≡ true
  unfolding handle_report
  handle_report-answers r j h space c = ground arith

  route-answers :
      (r : Request) (h : Handler F) (j : Job) (space : Option (Workspace F)) (endpoint : List Text)
      → consistent (some j) space ≡ true
      → is_some (route r h j endpoint) ≡ true
  route-answers r h j space [] c = refl
  route-answers r h j space (e ∷ es) c =
      ground (arith, handle_summary-answers r j h space c, handle_report-answers r j h space c)

  job_found-answers :
      (r : Request) (h : Handler F) (endpoint : List Text) (o : Option Job)
      (space : Option (Workspace F))
      → consistent o space ≡ true
      → is_some (job_found r h endpoint o) ≡ true
  job_found-answers r h endpoint none space c = refl
  job_found-answers r h endpoint (some j) space c = elim (Bool-cases (is_expired j.state)) [
    | inl t ↦ rw t refl
    | inr t ↦ rw t (route-answers r h j space endpoint c)
  ]

  detail-answers :
      (r : Request) (h : Handler F) (parts : List Text)
      → ((k : Text) → consistent (Store.get k h.job_store) (Map.get k h.workspaces) ≡ true)
      → is_some (detail r h parts) ≡ true
  detail-answers r h [] c = refl
  detail-answers r h (id ∷ endpoint) c = ground (
    arith,
    job_found-answers r h endpoint (Store.get id h.job_store) (Map.get id h.workspaces) (c id),
  )

pub succeeded-summary :
    {F : Type 0} (j : Job) (space : Option (Workspace F))
    → consistent (some j) space ≡ true
    → j.state ≡ succeeded
    → is_some (workspace_summary space) ≡ true
succeeded-summary j space c s = ground arith

-- An invariant service answers each request about a job.
answers :
    {F : Type 0} (now : Time) (r : Request) (h : Handler F) (working : List QueuedJob)
    → Inv h working
    → is_some (handle_analysis_detail now r h).1 ≡ true
unfolding handle_analysis_detail
answers now r h working v =
    let h' = expire_eligible_jobs now h in
    elim (Bool-cases h'.ready) [
      | inl t ↦ rw t (detail-answers r h' _ (expire_eligible_jobs-Inv now h working v).consistency)
      | inr t ↦ rw t refl
    ]

-- In each state that the service can come to from its start, a request for a job's status, summary or report gets a
-- response: no nil pointer is dereferenced, whatever the request and the time.
pub handle_analysis_detail-answers :
    {F : Type 0} (env : Env F) (w : World F) (now : Time) (r : Request)
    → Reach env w
    → is_some (handle_analysis_detail now r w.handler).1 ≡ true
handle_analysis_detail-answers env w now r reach =
    answers now r w.handler w.working (Reach-Inv env reach)
