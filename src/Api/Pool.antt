-- ===== src/Api/Pool.antt =====
-- The workers of internal/api/analysis_handler.go: how many run at once, and how much work is left.
use parser_go.Prelude.{
  ℕ, suc, ◌+◌, ◌*◌, ◌≤◌, Bool, true, false, ◌≡◌, refl, [], ◌∷◌, arith, length, length-append,
  Option-cases, inl, inr,
}
use parser_go.Prelude.Map
use parser_go.Clock.{Time}
use parser_go.Api.Handler.{Env, Handler, QueuedJob, new_handler, set_ready}
use parser_go.Api.Process.{
  Ending, failure, success, begin_job, finish_job, end_job, run_analysis, fail_job, succeed_job,
}
use parser_go.Api.Forgetting.{expire_eligible_jobs-SameSettings}
use parser_go.Api.Invariant.{Inv}
use parser_go.Api.Admitted.{handle_analyses-workers}
use parser_go.Api.World.{
  World, Next, ready, expire, submit, take, finish, Reach, start, further, Reach-Inv,
}

module _ {F : Type 0} where
  -- The steps of processJob leave the queue and the number of workers as they are.
  abbrev pub SamePool : Handler F → Handler F → Type 0
  SamePool a b = (a.job_queue ≡ b.job_queue) × (a.workers ≡ b.workers)

  pub begin_job-SamePool :
      (w : QueuedJob) (now : Time) (h : Handler F) → SamePool (begin_job w.id now h) h
  unfolding begin_job
  begin_job-SamePool w now h = (refl, refl)

  end_job-SamePool :
      (w : QueuedJob) (e : Ending F) (now : Time) (h : Handler F)
      → SamePool (end_job w.id e now h) h
  unfolding end_job fail_job succeed_job
  end_job-SamePool w (failure code message) now h = (refl, refl)
  end_job-SamePool w (success sum) now h = elim (Option-cases (Map.get w.id h.workspaces)) [
    | inl e ↦ rw e (refl, refl)
    | inr (ws, e) ↦ rw e (refl, refl)
  ]

  pub finish_job-SamePool :
      (env : Env F) (w : QueuedJob) (now : Time) (h : Handler F)
      → SamePool (finish_job env w now h) h
  unfolding finish_job
  finish_job-SamePool env w now h =
      end_job-SamePool w (run_analysis env w.format w.profile w.input_data) now h

  -- Two steps for a job that waits, one for a job that runs.
  abbrev pub work_left : World F → ℕ
  work_left w = 2 * length w.handler.job_queue + length w.working

module _ {F : Type 0} (env : Env F) where
  Next-workers :
      {a b : World F}
      → Next env a b
      → Inv a.handler a.working
      → length a.working ≤ a.handler.workers
      → length b.working ≤ b.handler.workers
  unfolding set_ready
  Next-workers (ready b h ws) v l = l
  Next-workers (expire now h ws) v l = rw (expire_eligible_jobs-SameSettings now h).2 l
  Next-workers (submit id now now' r h ws fresh) v l =
      rw (handle_analyses-workers env id now now' r h ws fresh v) l
  Next-workers (take now h w rest ws e idle) v l = ground (
    arith,
    begin_job-SamePool w now (record h { job_queue = rest }),
    length-append {0} ws (w ∷ []),
  )
  Next-workers (finish now h before w after) v l = ground (
    arith,
    finish_job-SamePool env w now h,
    length-append {0} before (w ∷ after),
    length-append {0} before after,
  )

  -- Each worker holds one job at a time.
  pub Reach-workers : {w : World F} → Reach env w → length w.working ≤ w.handler.workers
  unfolding new_handler
  Reach-workers (start cfg) = ground arith
  Reach-workers (further r n) = Next-workers n (Reach-Inv env r) (Reach-workers r)

  -- A step of a worker: it takes a job, or ends one.
  abbrev pub is_work : {a b : World F} → Next env a b → Bool
  is_work (ready b h ws) = false
  is_work (expire now h ws) = false
  is_work (submit id now now' r h ws fresh) = false
  is_work (take now h w rest ws e idle) = true
  is_work (finish now h before w after) = true

  -- Runs of n steps of the workers, with nothing in between.
  pub data WorkRun : ℕ → World F → World F → Type 0 where
    resting : {a : World F} → WorkRun 0 a a
    worked :
        {n : ℕ} {a b c : World F}
        → (s : Next env a b) → is_work s ≡ true
        → WorkRun n b c
        → WorkRun (suc n) a c

  pub is_work-left :
      {a b : World F} (s : Next env a b) → is_work s ≡ true → suc (work_left b) ≡ work_left a
  is_work-left (ready b h ws) e = cc
  is_work-left (expire now h ws) e = cc
  is_work-left (submit id now now' r h ws fresh) e = cc
  is_work-left (take now h w rest ws e idle) t = ground (
    arith,
    begin_job-SamePool w now (record h { job_queue = rest }),
    length-append {0} ws (w ∷ []),
    e,
  )
  is_work-left (finish now h before w after) t = ground (
    arith,
    finish_job-SamePool env w now h,
    length-append {0} before (w ∷ after),
    length-append {0} before after,
  )

  -- Each step does one unit of the work that is left.
  pub WorkRun-work_left : {n : ℕ} {a b : World F} → WorkRun n a b → n + work_left b ≡ work_left a
  WorkRun-work_left resting = ground arith
  WorkRun-work_left (worked s e r) = ground (arith, WorkRun-work_left r, is_work-left s e)
