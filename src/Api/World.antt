-- ===== src/Api/World.antt =====
-- The service of internal/api/analysis_handler.go as a state machine: requests, expiry and the
-- workers' loop interleave.
use parser_go.Prelude.{
  ℕ, zero, suc, Text, Bool, true, false, ◌≡◌, refl, List, [], ◌∷◌, ◌++◌, arith, length, none, ltb,
  ◌==◌,
}
use parser_go.Prelude.Map
use parser_go.Prelude.Int.{ℤ, pos, negsuc, positive_or}
use parser_go.Clock.{Time}
use parser_go.Job.Store
use parser_go.Api.Http.{Request}
use parser_go.Api.Handler.{
  Env, Handler, HandlerConfig, QueuedJob, new_handler, set_ready, default_retention,
}
use parser_go.Api.Jobs.{expire_eligible_jobs}
use parser_go.Api.Submit.{handle_analyses}
use parser_go.Api.Process.{begin_job, finish_job}
use parser_go.Api.Invariant.{Inv}
use parser_go.Api.Lifecycle.{expire_eligible_jobs-Inv, begin_job-Inv}
use parser_go.Api.Endings.{finish_job-Inv}
use parser_go.Api.Admitted.{handle_analyses-Inv}

-- The handler, and the jobs that its workers have taken from the queue, oldest first.
pub record World (F : Type 0) : Type 0 where
  pub handler : Handler F
  pub working : List QueuedJob

positive_or-positive : (d : ℕ) (z : ℤ) → (d == 0) ≡ false → (positive_or d z == 0) ≡ false
positive_or-positive d (pos zero) h = h
positive_or-positive d (pos (suc n)) h = ground arith
positive_or-positive d (negsuc n) h = h

module _ {F : Type 0} (env : Env F) where
  -- One step of the service. Each step is atomic: the store, the workspaces and the keys have
  -- mutexes, and the queue is a channel.
  pub data Next : World F → World F → Type 0 where
    -- main and the signal handler set whether the service is ready
    ready :
        (b : Bool) (h : Handler F) (ws : List QueuedJob)
        → Next
            (record { handler = h; working = ws })
            (record { handler = set_ready b h; working = ws })
    -- a request, or one to read a job, finds the jobs that are due
    expire :
        (now : Time) (h : Handler F) (ws : List QueuedJob)
        → Next
            (record { handler = h; working = ws })
            (record { handler = expire_eligible_jobs now h; working = ws })
    -- a submission, for which generateJobID gives an ID that is not in use
    submit :
        (id : Text) (now now' : Time) (r : Request) (h : Handler F) (ws : List QueuedJob)
        → Store.get id h.job_store ≡ none
        → Next
            (record { handler = h; working = ws })
            (record { handler = (handle_analyses env id now now' r h).0; working = ws })
    -- one of the workers that were started, if it holds no job, takes the oldest job of the queue
    take :
        (now : Time) (h : Handler F) (w : QueuedJob) (rest ws : List QueuedJob)
        → h.job_queue ≡ w ∷ rest
        → ltb (length ws) h.workers ≡ true
        → Next
            (record { handler = h; working = ws })
            (record {
              handler = begin_job w.id now (record h { job_queue = rest });
              working = ws ++ w ∷ [];
            })
    -- a worker ends its job
    finish :
        (now : Time) (h : Handler F) (before : List QueuedJob) (w : QueuedJob)
        (after : List QueuedJob)
        → Next
            (record { handler = h; working = before ++ w ∷ after })
            (record { handler = finish_job env w now h; working = before ++ after })

  -- What the service can come to from its start.
  pub data Reach : World F → Type 0 where
    start : (cfg : HandlerConfig) → Reach (record { handler = new_handler cfg; working = [] })
    further : {a b : World F} → Reach a → Next a b → Reach b

  set_ready-Inv :
      (b : Bool) (h : Handler F) (ws : List QueuedJob) → Inv h ws → Inv (set_ready b h) ws
  unfolding set_ready
  set_ready-Inv b h ws v = record {
    keyed = v.keyed;
    keys = v.keys;
    consistency = v.consistency;
    works = v.works;
    accounted = v.accounted;
    queue_bound = v.queue_bound;
    retains = v.retains;
  }

  pub start-Inv : (cfg : HandlerConfig) → Inv (new_handler {F = F} cfg) []
  unfolding new_handler Store.get Map.get
  start-Inv cfg = record {
    keyed = record { keyed = tt; unique = tt };
    keys = tt;
    consistency = λ k. refl;
    works = tt;
    accounted = λ k p. p;
    queue_bound = ground arith;
    retains = positive_or-positive default_retention cfg.retention refl;
  }

  pub Next-Inv : {a b : World F} → Next a b → Inv a.handler a.working → Inv b.handler b.working
  Next-Inv (ready b h ws) v = set_ready-Inv b h ws v
  Next-Inv (expire now h ws) v = expire_eligible_jobs-Inv now h ws v
  Next-Inv (submit id now now' r h ws fresh) v = handle_analyses-Inv env id now now' r h ws fresh v
  Next-Inv (take now h w rest ws e idle) v = begin_job-Inv now h ws w rest e v
  Next-Inv (finish now h before w after) v = finish_job-Inv env now h before w after v

  -- In every state that the service can come to from its start: the store and the idempotency map
  -- have one entry for each key, and a job stands under its ID and has a state; a queued or running job
  -- has a workspace, a job that succeeded has a summary in its workspace, and a job that failed has an
  -- error; the work that waits and that the workers hold is valid, is pending in the store and has
  -- each ID once, and every pending job of the store is among it; the queue does not exceed its limit,
  -- and the retention is not zero.
  pub Reach-Inv : {w : World F} → Reach w → Inv w.handler w.working
  Reach-Inv (start cfg) = start-Inv cfg
  Reach-Inv (further r n) = Next-Inv n (Reach-Inv r)
