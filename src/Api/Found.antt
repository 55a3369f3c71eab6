-- ===== src/Api/Found.antt =====
-- What handleAnalysisDetail of internal/api/analysis_handler.go answers to a GET for the summary of a job
-- that succeeded.
use parser_go.Prelude.{
  Text, text, text_eq, split, trim_prefix, true, false, not, ◌≡◌, refl, ap, ◌∙◌, subst, List, [],
  ◌∷◌, ◌++◌, arith, all, Option, none, some, is_some, Bool-cases, Option-cases, inl, inr, ◌==◌,
}
use parser_go.Prelude.Strings.{trim_prefix-append, split-one, split-append}
use parser_go.Prelude.Map
use parser_go.Clock.{Time}
use parser_go.Job.{Job, succeeded}
use parser_go.Job.Store
use parser_go.Job.Laws.{get-id}
use parser_go.Summary.Compute.{Summary}
use parser_go.Api.Http.{
  Request, Response, respond, write_error, summary, service_unavailable, expired_code,
}
use parser_go.Api.Names.{is_id_byte, is_valid_job_id}
use parser_go.Api.Handler.{Env, Handler, QueuedJob}
use parser_go.Api.Jobs.{is_due, expire_eligible_jobs}
use parser_go.Api.Detail.{
  handle_summary, handle_analysis_detail, stored_summary, workspace_summary, job_found, is_get,
}
use parser_go.Api.Expiry.{expire_eligible_jobs-get, expire_eligible_jobs-spaces}
use parser_go.Api.Due.{IsDue, is_due-IsDue, not-IsDue}
use parser_go.Api.Forgetting.{expire_eligible_jobs-SameSettings}
use parser_go.Api.Answers.{succeeded-summary}
use parser_go.Api.Invariant.{Inv, consistent}
use parser_go.Api.World.{World, Reach, Reach-Inv}

-- The three answers: the service is not ready, the job is due to expire, or the summary is there.
pub data SummaryAnswer {F : Type 0} (now : Time) (h : Handler F) (id : Text) (j : Job)
    : Option (Response F) → Type 0 where
  unready :
      h.ready ≡ false
      → SummaryAnswer now h id j
          (some (write_error 503 service_unavailable (text "service not ready")))
  gone :
      h.ready ≡ true
      → IsDue now h.retention j
      → SummaryAnswer now h id j (some (write_error 410 expired_code (text "analysis has expired")))
  found :
      h.ready ≡ true
      → ¬ IsDue now h.retention j
      → (sum : Summary F) → stored_summary id h ≡ some sum
      → SummaryAnswer now h id j (some (respond 200 (summary sum)))

id_bytes-no_slash : (s : Text) → all is_id_byte s ≡ true → all (λ c. not (c == b'/')) s ≡ true
id_bytes-no_slash [] h = refl
id_bytes-no_slash (c ∷ s) h = ground (arith, id_bytes-no_slash s)

valid-no_slash : (s : Text) → is_valid_job_id s ≡ true → all (λ c. not (c == b'/')) s ≡ true
unfolding is_valid_job_id
valid-no_slash s h = id_bytes-no_slash s (ground arith)

valid-not_empty : (s : Text) → is_valid_job_id s ≡ true → text_eq s [] ≡ false
unfolding is_valid_job_id text_eq
valid-not_empty [] h = cc
valid-not_empty (c ∷ s) h = refl

summary_parts :
    (id : Text)
    → all (λ c. not (c == b'/')) id ≡ true
    → split b'/' (id ++ text "/summary") ≡ id ∷ text "summary" ∷ []
unfolding text
summary_parts id n =
    split-append b'/' id (text "summary") n
    ∙ ap (λ l. id ∷ l) (split-one b'/' (text "summary") refl)

module _ {F : Type 0} where
  none_held :
      (h : Handler F) (id : Text)
      → stored_summary id h ≡ none
      → is_some (workspace_summary (Map.get id h.workspaces)) ≡ true
      → ⊥
  unfolding stored_summary
  none_held h id n held = ground arith

  succeeded-route :
      (r : Request) (h : Handler F) (j : Job) (sum : Summary F)
      → is_get r ≡ true
      → j.state ≡ succeeded
      → stored_summary j.id h ≡ some sum
      → job_found r h (text "summary" ∷ []) (some j) ≡ some (respond 200 (summary sum))
  unfolding handle_summary text_eq text
  succeeded-route r h j sum g s e = rw (s, g, e) refl

  -- Expiry keeps the summary of a job that is not due.
  kept_summary :
      (now : Time) (id : Text) (j : Job) (h : Handler F) (working : List QueuedJob)
      (sum : Summary F)
      → Inv h working
      → Store.get id h.job_store ≡ some j
      → is_due now h.retention j ≡ false
      → stored_summary id h ≡ some sum
      → stored_summary j.id (expire_eligible_jobs now h) ≡ some sum
  unfolding stored_summary
  kept_summary now id j h working sum v e d n =
      rw
        (
          get-id id j h.job_store e v.keyed,
          expire_eligible_jobs-spaces now id h v.keyed v.retains,
          e,
          d,
        )
        n

  -- The answer of a ready service.
  ready-answer :
      (r : Request) (now : Time) (id : Text) (j : Job) (h : Handler F) (working : List QueuedJob)
      → Inv h working
      → h.ready ≡ true
      → is_get r ≡ true
      → Store.get id h.job_store ≡ some j
      → j.state ≡ succeeded
      → SummaryAnswer now h id j (
          let h' = expire_eligible_jobs now h in
          job_found r h' (text "summary" ∷ []) (Store.get id h'.job_store))
  ready-answer r now id j h working v ready g e s =
      let h' = expire_eligible_jobs now h in
      elim (Bool-cases (is_due now h.retention j)) [
        | inl d ↦
            rw (expire_eligible_jobs-get now id h v.keyed v.retains, e, d)
              (gone ready (is_due-IsDue now h.retention j d))
        | inr d ↦
            let held =
              succeeded-summary j (Map.get id h.workspaces)
                (subst (λ o. consistent o (Map.get id h.workspaces) ≡ true) e (v.consistency id))
                s in
            elim (Option-cases (stored_summary id h)) [
              | inl n ↦ absurd (none_held h id n held)
              | inr (sum, n) ↦
                  rw
                    (
                      expire_eligible_jobs-get now id h v.keyed v.retains,
                      e,
                      d,
                      succeeded-route r h' j sum g s (kept_summary now id j h working sum v e d n),
                    )
                    (found ready (not-IsDue now h.retention j d) sum n)
            ]
      ]

-- In each state that the service can come to, a GET for the summary of a job that succeeded, under a valid
-- ID, is answered in one of three ways: with status 503 if the service is not ready, with status 410 if it
-- is ready and the job is due to expire, and else with status 200 and the summary that the job's workspace
-- holds, which is there.
pub handle_summary-found :
    {F : Type 0} (env : Env F) (w : World F) (now : Time) (r : Request) (id : Text) (j : Job)
    → Reach env w
    → Store.get id w.handler.job_store ≡ some j
    → j.state ≡ succeeded
    → is_valid_job_id id ≡ true
    → is_get r ≡ true
    → r.path ≡ text "/v1/analyses/" ++ (id ++ text "/summary")
    → SummaryAnswer now w.handler id j (handle_analysis_detail now r w.handler).1
unfolding handle_analysis_detail
handle_summary-found env w now r id j reach e s valid g path =
    let same = (expire_eligible_jobs-SameSettings now w.handler).4 in
    let parts =
      ap (λ p. split b'/' (trim_prefix p (text "/v1/analyses/"))) path
      ∙ (ap (split b'/') (trim_prefix-append (text "/v1/analyses/") (id ++ text "/summary"))
          ∙ summary_parts id (valid-no_slash id valid)) in
    elim (Bool-cases w.handler.ready) [
      | inr n ↦ rw (same ∙ n) (unready n)
      | inl ready ↦
          rw (same ∙ ready, parts, valid-not_empty id valid, valid)
            (ready-answer r now id j w.handler w.working (Reach-Inv env reach) ready g e s)
    ]
