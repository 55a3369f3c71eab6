-- ===== src/Api/Progress.antt =====
-- The workers of internal/api/analysis_handler.go get every job done.
use parser_go.Prelude.{
  ◌+◌, ℕ, ◌<◌, Text, true, false, ◌≡◌, refl, ◌∙◌, subst, List, [], ◌∷◌, ◌++◌, arith, some,
  Bool-cases, inl, inr,
}
use parser_go.Clock.{Time}
use parser_go.Job.{Job, is_pending}
use parser_go.Job.Store
use parser_go.Api.Handler.{Env, Handler, QueuedJob}
use parser_go.Api.Process.{begin_job, finish_job}
use parser_go.Api.Works.{has_work}
use parser_go.Api.Invariant.{Inv}
use parser_go.Api.World.{World, Next, ready, expire, submit, take, finish, Reach, Reach-Inv}
use parser_go.Api.Pool.{
  SamePool, is_work-left, WorkRun-work_left, begin_job-SamePool, finish_job-SamePool, work_left,
  WorkRun, resting, worked, is_work,
}
use parser_go.Api.Lifetimes.{Run, stop, step, Run-Reach, Run-Keeps, Forward}

module _ {F : Type 0} (env : Env F) (now : Time) where
  -- A run of the workers after which nothing is left to do.
  abbrev Drains : World F → Type 0
  Drains a =
      (b : World F) × WorkRun env (work_left a) a b × (b.handler.job_queue ≡ []) × (b.working ≡ [])

  drain_step : {a b : World F} (s : Next env a b) → is_work env s ≡ true → Drains b → Drains a
  drain_step {a} s e (c, r, q, w) =
      (c, subst (λ n. WorkRun env n a c) (is_work-left env s e) (worked s e r), q, w)

  -- The workers end the jobs that they hold.
  drain_working :
      (h : Handler F) (ws : List QueuedJob)
      → ((h' : Handler F) → SamePool h' h → Drains (record { handler = h'; working = [] }))
      → Drains (record { handler = h; working = ws })
  drain_working h [] k = k h (refl, refl)
  drain_working h (w ∷ ws) k =
      let same = finish_job-SamePool env w now h in
      drain_step (finish now h [] w ws) refl
        (drain_working (finish_job env w now h) ws (λ h' p. k h' (p.0 ∙ same.0, p.1 ∙ same.1)))

  -- An idle worker takes each job that waits, and ends it.
  drain_queue :
      (q : List QueuedJob) (h : Handler F)
      → h.job_queue ≡ q
      → 0 < h.workers
      → Drains (record { handler = h; working = [] })
  drain_queue [] h e l = (
    record { handler = h; working = [] },
    subst
        (λ n.
          WorkRun env n (record { handler = h; working = [] })
            (record { handler = h; working = [] }))
        (ground (arith, e)) resting,
    e,
    refl,
  )
  drain_queue (w ∷ rest) h e l =
      let h' : Handler F = record h { job_queue = rest } in
      let begun = begin_job w.id now h' in
      let b = begin_job-SamePool w now h' in
      let f = finish_job-SamePool env w now begun in
      drain_step (take now h w rest [] e (ground arith)) refl (
        drain_step (finish now begun [] w []) refl
          (drain_queue rest (finish_job env w now begun) (f.0 ∙ b.0) (rw (f.1, b.1) l)))

  drain :
      (h : Handler F) (ws : List QueuedJob)
      → 0 < h.workers
      → Drains (record { handler = h; working = ws })
  drain h ws l = drain_working h ws (λ h' p. drain_queue h'.job_queue h' refl (rw p.1 l))

-- With nothing left to do, no job is queued or running.
idle-ended :
    {F : Type 0} {h : Handler F} {ws : List QueuedJob}
    → Inv h ws
    → h.job_queue ≡ []
    → ws ≡ []
    → (k : Text) (i : Job) → Store.get k h.job_store ≡ some i
    → is_pending i.state ≡ false
idle-ended {F} {h} {ws} v q w k i e = elim (Bool-cases (is_pending i.state)) [
  | inl p ↦
      let held : has_work k ([] ++ []) ≡ true =
        subst (λ xs. has_work k (xs ++ []) ≡ true) w
          (subst (λ ys. has_work k (ws ++ ys) ≡ true) q (v.accounted k (rw e p))) in
      ground (arith, held)
  | inr p ↦ p
]

WorkRun-Run :
    {F : Type 0} (env : Env F) {n : ℕ} {a b c : World F}
    → Run env a b
    → WorkRun env n b c
    → Run env a c
WorkRun-Run env r resting = r
WorkRun-Run env r (worked s e k) = WorkRun-Run env (step r s) k

Next-limit :
    {F : Type 0} (env : Env F) {a b : World F} (s : Next env a b)
    → is_work env s ≡ true
    → b.handler.workers ≡ a.handler.workers
Next-limit env (ready b h ws) e = cc
Next-limit env (expire now h ws) e = cc
Next-limit env (submit id now now' r h ws fresh) e = cc
Next-limit env (take now h w rest ws q idle) e =
    (begin_job-SamePool w now (record h { job_queue = rest })).1
Next-limit env (finish now h before w after) e = (finish_job-SamePool env w now h).1

WorkRun-limit :
    {F : Type 0} (env : Env F) {n : ℕ} {a b : World F}
    → WorkRun env n a b
    → b.handler.workers ≡ a.handler.workers
WorkRun-limit env resting = refl
WorkRun-limit env (worked s e r) = WorkRun-limit env r ∙ Next-limit env s e

-- With at least one worker, in every state that the service can come to, the workers' steps come to an
-- end, whichever they are: after any n of them without a new request, exactly the work that is left less
-- n remains (two steps for a job that waits, one for a job that a worker holds), and as many steps lead
-- on to a state in which the queue is empty and no worker holds a job; there each job that was in
-- the store is still there and has ended: it is neither queued nor running.
pub all_jobs_end :
    {F : Type 0} (env : Env F) (now : Time) {n : ℕ} {a c : World F}
    → Reach env a
    → 0 < a.handler.workers
    → WorkRun env n a c
    → (n + work_left c ≡ work_left a)
      × (b : World F) × WorkRun env (work_left c) c b
      × (b.handler.job_queue ≡ [])
      × (b.working ≡ [])
      × ((k : Text) (j : Job)
          → Store.get k a.handler.job_store ≡ some j
          → (i : Job) × (Store.get k b.handler.job_store ≡ some i)
            × Forward j i
            × (is_pending i.state ≡ false))
all_jobs_end env now {n} {a} {c} r l first =
    let (b, run, q, w) = drain env now c.handler c.working (rw (WorkRun-limit env first) l) in
    let steps = WorkRun-Run env (WorkRun-Run env stop first) run in
    let v = Reach-Inv env (Run-Reach env r steps) in
    (
      WorkRun-work_left env first,
      b,
      run,
      q,
      w,
      λ k j e. let (i, e', f) = Run-Keeps env k j r steps e in (i, e', f, idle-ended v q w k i e'),
    )
