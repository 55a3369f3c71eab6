-- ===== src/Api/Expiry.antt =====
-- What expireEligibleJobs of internal/api/analysis_handler.go does, job by job.
use parser_go.Prelude.{
  ℕ, Text, Bool, false, ◌&&◌, ◌||◌, Option, none, some, List, [], ◌∷◌, ◌≡◌, refl, ◌∙◌, arith,
  if◌then◌else◌, text_eq, text_eq_iff, ◌==◌,
}
use parser_go.Prelude.Map
use parser_go.Prelude.Map.{Map, Entry, get-delete}
use parser_go.Clock.{Time, is_zero}
use parser_go.Job.{Job, expired}
use parser_go.Job.Store
use parser_go.Job.Store.{Store, get-update, patch, updated}
use parser_go.Job.Laws.{IsWellKeyed, Snapshot, has_id, list-Snapshot, has_id-list}
use parser_go.Api.Handler.{Handler, delete_idempotency_for_job}
use parser_go.Api.Jobs.{expiry, is_due, expire_job, expire_loop, expire_eligible_jobs}

-- A job after the expiry at `now`: one that is due becomes expired, and keeps its error and the time
-- of its creation.
abbrev pub expire_one : Time → ℕ → Job → Job
expire_one now retention j =
    if is_due now retention j
    then record j { state = expired; updated_at = if is_zero now then j.updated_at else now }
    else j

abbrev pub map_job : (Job → Job) → Option Job → Option Job
map_job f none = none
map_job f (some j) = some (f j)

other_id : (j i : Job) (js : List Job) → has_id j.id (i ∷ js) ≡ false → text_eq j.id i.id ≡ false
other_id j i js n = ground (arith, text_eq_iff i.id j.id, text_eq_iff j.id i.id)

-- Whether the job under a key is due, if there is one.
abbrev pub due_in : Time → ℕ → Option Job → Bool
due_in now retention none = false
due_in now retention (some j) = is_due now retention j

unfoldable pub has_due : Time → ℕ → Text → List Job → Bool
has_due now retention k [] = false
has_due now retention k (j ∷ js) =
    (text_eq j.id k && is_due now retention j) || has_due now retention k js

pub has_due-list :
    (now : Time) (retention : ℕ) (k : Text) (s : Store) (js : List Job)
    → Snapshot s js
    → has_due now retention k js ≡ (has_id k js && due_in now retention (Store.get k s))
unfolding has_due
has_due-list now retention k s [] n = refl
has_due-list now retention k s (j ∷ js) n =
    ground (arith, n.0, n.1, text_eq_iff j.id k, has_due-list now retention k s js n.2)

module _ {F : Type 0} where
  abbrev pub step_job : Time → Job → Handler F → Handler F
  step_job now j h = if is_due now h.retention j then expire_job now j h else h

  step-get :
      (now : Time) (j : Job) (k : Text) (h : Handler F)
      → Store.get j.id h.job_store ≡ some j
      → Store.get k (step_job now j h).job_store
        ≡ (if text_eq j.id k then some (expire_one now h.retention j) else Store.get k h.job_store)
  unfolding expire_job delete_idempotency_for_job updated
  step-get now j k h e = ground (arith, get-update (expiry now j) k h.job_store, text_eq_iff j.id k)

  pub step-retention :
      (now : Time) (j : Job) (h : Handler F) → (step_job now j h).retention ≡ h.retention
  unfolding expire_job delete_idempotency_for_job
  step-retention now j h = ground arith

  Snapshot-step :
      (now : Time) (j : Job) (js : List Job) (h : Handler F)
      → Store.get j.id h.job_store ≡ some j
      → has_id j.id js ≡ false
      → Snapshot h.job_store js
      → Snapshot (step_job now j h).job_store js
  Snapshot-step now j [] h e n s = tt
  Snapshot-step now j (i ∷ js) h e n s = (
    step-get now j i.id h e ∙ rw (other_id j i js n) s.0,
    s.1,
    Snapshot-step now j js h e (ground arith) s.2,
  )

  expire_loop-get :
      (now : Time) (k : Text) (js : List Job) (h : Handler F)
      → Snapshot h.job_store js
      → Store.get k (expire_loop now js h).job_store ≡ (
          if has_id k js
          then map_job (expire_one now h.retention) (Store.get k h.job_store)
          else Store.get k h.job_store)
  unfolding expire_loop
  expire_loop-get now k [] h s = refl
  expire_loop-get now k (j ∷ js) h s =
      let ih = expire_loop-get now k js (step_job now j h) (Snapshot-step now j js h s.0 s.1 s.2) in
      ground
        (arith, ih, step-get now j k h s.0, step-retention now j h, s.0, s.1, text_eq_iff j.id k)

  pub expire_eligible_jobs-get :
      (now : Time) (k : Text) (h : Handler F)
      → IsWellKeyed h.job_store
      → (h.retention == 0) ≡ false
      → Store.get k (expire_eligible_jobs now h).job_store
        ≡ map_job (expire_one now h.retention) (Store.get k h.job_store)
  unfolding expire_eligible_jobs
  expire_eligible_jobs-get now k h w r = ground (
    arith,
    expire_loop-get now k (Store.list h.job_store) h (list-Snapshot h.job_store w),
    has_id-list k h.job_store w,
  )

  expire_loop-spaces :
      (now : Time) (k : Text) (js : List Job) (h : Handler F)
      → Map.get k (expire_loop now js h).workspaces
        ≡ (if has_due now h.retention k js then none else Map.get k h.workspaces)
  unfolding expire_loop expire_job delete_idempotency_for_job has_due
  expire_loop-spaces now k [] h = refl
  expire_loop-spaces now k (j ∷ js) h = ground (
    arith,
    expire_loop-spaces now k js (step_job now j h),
    step-retention now j h,
    get-delete j.id k h.workspaces,
  )

  -- In a store that holds each job once, under its ID, and with a retention that is not zero, the
  -- workspaces of the jobs that are due are gone after expiry, and no others.
  pub expire_eligible_jobs-spaces :
      (now : Time) (k : Text) (h : Handler F)
      → IsWellKeyed h.job_store
      → (h.retention == 0) ≡ false
      → Map.get k (expire_eligible_jobs now h).workspaces ≡ (
          if due_in now h.retention (Store.get k h.job_store) then none else Map.get k h.workspaces)
  unfolding expire_eligible_jobs
  expire_eligible_jobs-spaces now k h w r = ground (
    arith,
    expire_loop-spaces now k (Store.list h.job_store) h,
    has_due-list now h.retention k h.job_store (Store.list h.job_store)
        (list-Snapshot h.job_store w),
    has_id-list k h.job_store w,
  )
