-- ===== src/Api/Reports/Agreement.antt =====
-- The report page of internal/api/report_handler.go and the report endpoint of
-- internal/api/analysis_handler.go answer alike.
use parser_go.Prelude.{
  Text, text, text_eq, split, true, false, not, ◌≡◌, refl, ap, ◌∙◌, subst, List, [], ◌∷◌, ◌++◌,
  arith, all, Option, none, some, is_some, ◌==◌, Bool-cases, Option-cases, inl, inr,
}
use parser_go.Prelude.Strings.{trim_prefix-append, split-one, split-append}
use parser_go.Prelude.Map
use parser_go.Clock.{Time}
use parser_go.Float.{Floats}
use parser_go.Job.{Job, JobError, unset, queued, running, succeeded, failed, expired, is_expired}
use parser_go.Job.Store
use parser_go.Job.Laws.{get-id}
use parser_go.Api.Http.{Request, Response}
use parser_go.Api.Names.{is_valid_job_id}
use parser_go.Api.Handler.{Env, Handler, QueuedJob}
use parser_go.Api.Jobs.{expire_eligible_jobs}
use parser_go.Api.Forgetting.{expire_eligible_jobs-SameSettings}
use parser_go.Api.Detail.{
  handle_analysis_detail, handle_report, stored_summary, route, job_found, detail, is_get,
}
use parser_go.Api.Invariant.{Inv, consistent}
use parser_go.Api.Lifecycle.{expire_eligible_jobs-Inv}
use parser_go.Api.World.{World, Reach, Reach-Inv}
use parser_go.Api.Reports.Pages.{
  PageResponse, job_page, path_page, summary_page, handle_report_detail, not_ready_report,
  failed_report_page, expired_report,
}

-- An answer, with the status of a page.
abbrev pub AnswersLike : {F : Type 0} → Option (Response F) → PageResponse → Type 0
AnswersLike {F} o p = (a : Response F) × (o ≡ some a) × (a.status ≡ p.status)

module _ {F : Type 0} (fl : Floats F) where
  failed-AnswersLike :
      (r : Request) (h : Handler F) (j : Job) (error : Option JobError)
      → is_get r ≡ true
      → is_some error ≡ true
      → AnswersLike
          (handle_report r (record j { state = failed; error = error }) h)
          (failed_report_page j.id error)
  unfolding handle_report failed_report_page
  failed-AnswersLike r h j none g e = cc
  failed-AnswersLike r h j (some error) g e = rw g (_, refl, refl)

  succeeded-AnswersLike :
      (r : Request) (h : Handler F) (j : Job)
      → is_get r ≡ true
      → is_some (stored_summary j.id h) ≡ true
      → AnswersLike
          (handle_report r (record j { state = succeeded }) h)
          (summary_page fl j.id (stored_summary j.id h))
  unfolding handle_report
  succeeded-AnswersLike r h j g e = elim (Option-cases (stored_summary j.id h)) [
    | inl n ↦ absurd (ground arith)
    | inr (sum, n) ↦ rw (g, n) (_, refl, refl)
  ]

  -- For a job that is not expired.
  report-AnswersLike :
      (r : Request) (h : Handler F) (j : Job)
      → is_get r ≡ true
      → is_expired j.state ≡ false
      → consistent (some j) (Map.get j.id h.workspaces) ≡ true
      → AnswersLike (handle_report r j h) (job_page fl j.id h (some j))
  unfolding handle_report not_ready_report stored_summary
  report-AnswersLike r h j g n c =
      elim j.state
          as (λ s.
            is_expired s ≡ false
            → consistent (some (record j { state = s })) (Map.get j.id h.workspaces) ≡ true
            → AnswersLike (handle_report r (record j { state = s }) h)
                (job_page fl j.id h (some (record j { state = s })))) [
                  | queued ↦ λ n c. rw g (_, refl, refl)
                  | running ↦ λ n c. rw g (_, refl, refl)
                  | succeeded ↦ λ n c. succeeded-AnswersLike r h j g c
                  | failed ↦ λ n c. failed-AnswersLike r h j j.error g c
                  | expired ↦ λ n c. cc
                  | unset ↦ λ n c. cc
                ]
        n c

  expired-AnswersLike :
      (r : Request) (h : Handler F) (k : Text) (j : Job)
      → is_expired j.state ≡ true
      → AnswersLike (job_found r h (text "report" ∷ []) (some j)) (job_page fl k h (some j))
  unfolding expired_report
  expired-AnswersLike r h k j e =
      elim j.state
          as (λ s.
            is_expired s ≡ true
            → AnswersLike (job_found r h (text "report" ∷ []) (some (record j { state = s })))
                (job_page fl k h (some (record j { state = s })))) [
                  | expired ↦ λ e. (_, refl, refl)
                  | queued ↦ λ e. cc
                  | running ↦ λ e. cc
                  | succeeded ↦ λ e. cc
                  | failed ↦ λ e. cc
                  | unset ↦ λ e. cc
                ]
        e

  route-report :
      (r : Request) (h : Handler F) (j : Job)
      → route r h j (text "report" ∷ []) ≡ handle_report r j h
  unfolding text text_eq
  route-report r h j = refl

  job_found-AnswersLike :
      (r : Request) (h : Handler F) (k : Text) (o : Option Job)
      → is_get r ≡ true
      → consistent o (Map.get k h.workspaces) ≡ true
      → ((j : Job) → o ≡ some j → j.id ≡ k)
      → AnswersLike (job_found r h (text "report" ∷ []) o) (job_page fl k h o)
  job_found-AnswersLike r h k none g c i = (_, refl, refl)
  job_found-AnswersLike r h k (some j) g c i = elim (Bool-cases (is_expired j.state)) [
    | inl e ↦ expired-AnswersLike r h k j e
    | inr e ↦
        rw (e, route-report r h j)
          (subst
            (λ id.
              consistent (some j) (Map.get id h.workspaces) ≡ true
              → AnswersLike (handle_report r j h) (job_page fl id h (some j)))
            (i j refl) (report-AnswersLike r h j g e) c)
  ]

  -- The parts of the two paths.
  parts-AnswersLike :
      (r : Request) (h : Handler F) (ws : List QueuedJob) (id : Text)
      → is_get r ≡ true
      → Inv h ws
      → AnswersLike (detail r h (id ∷ text "report" ∷ [])) (path_page fl h (id ∷ []))
  parts-AnswersLike r h ws id g v = elim (Bool-cases (text_eq id [])) [
    | inl e ↦ rw e (_, refl, refl)
    | inr e ↦ elim (Bool-cases (is_valid_job_id id)) [
      | inl a ↦
          rw (e, a)
            (job_found-AnswersLike r h id (Store.get id h.job_store) g (v.consistency id)
              (λ j q. get-id id j h.job_store q v.keyed))
      | inr a ↦ rw (e, a) (_, refl, refl)
    ]
  ]

  report_parts :
      (id : Text)
      → all (λ c. not (c == b'/')) id ≡ true
      → split b'/' (id ++ text "/report") ≡ id ∷ text "report" ∷ []
  unfolding text
  report_parts id n =
      split-append b'/' id (text "report") n
      ∙ ap (λ l. id ∷ l) (split-one b'/' (text "report") refl)

-- In every ready state that the service can come to, for every ID without a slash, the page under
-- /reports/<id> and the endpoint /v1/analyses/<id>/report answer a GET with the same status, and leave
-- the service as the same expiry does.
pub report_endpoints-agree :
    {F : Type 0} (fl : Floats F) (env : Env F) (w : World F) (now : Time) (p q : Request)
    (id : Text)
    → Reach env w
    → w.handler.ready ≡ true
    → is_get p ≡ true
    → is_get q ≡ true
    → all (λ c. not (c == b'/')) id ≡ true
    → p.path ≡ text "/reports/" ++ id
    → q.path ≡ text "/v1/analyses/" ++ (id ++ text "/report")
    → AnswersLike
        (handle_analysis_detail now q w.handler).1
        (handle_report_detail fl now p w.handler).1
      × ((handle_analysis_detail now q w.handler).0 ≡ (handle_report_detail fl now p w.handler).0)
unfolding handle_analysis_detail handle_report_detail
report_endpoints-agree fl env w now p q id reach ready g g' n e e' =
    let h = expire_eligible_jobs now w.handler in
    let v = expire_eligible_jobs-Inv now w.handler w.working (Reach-Inv env reach) in
    rw
      (
        g,
        (expire_eligible_jobs-SameSettings now w.handler).4 ∙ ready,
        e,
        e',
        trim_prefix-append (text "/reports/") id,
        trim_prefix-append (text "/v1/analyses/") (id ++ text "/report"),
        split-one b'/' id n,
        report_parts fl id n,
      )
      (parts-AnswersLike fl q h w.working id g' v, refl)
