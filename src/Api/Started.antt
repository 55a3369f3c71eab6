-- ===== src/Api/Started.antt =====
-- How many workers NewHandler of internal/api/analysis_handler.go starts, and how many jobs they hold.
use parser_go.Prelude.{ℕ, zero, suc, ◌≤◌, ◌≡◌, refl, ◌∙◌, [], arith, length}
use parser_go.Prelude.Int.{ℤ, pos, negsuc}
use parser_go.Api.Handler.{
  Env, HandlerConfig, new_handler, set_ready, worker_limit_of, start_workers,
}
use parser_go.Api.Forgetting.{expire_eligible_jobs-SameSettings}
use parser_go.Api.Invariant.{Inv}
use parser_go.Api.Admitted.{handle_analyses-workers}
use parser_go.Api.Pool.{Reach-workers, begin_job-SamePool, finish_job-SamePool}
use parser_go.Api.World.{World, Next, ready, expire, submit, take, finish, Reach, start, Reach-Inv}
use parser_go.Api.Lifetimes.{Run, stop, step, Run-Reach}

-- The workers for a configured limit: as many as it says, one if it is not set, none if it is negative.
pub data Starts : ℤ → ℕ → Type 0 where
  as_configured : (n : ℕ) → Starts (pos (suc n)) (suc n)
  by_default : Starts (pos zero) 1
  disabled : (n : ℕ) → Starts (negsuc n) 0

start_workers_lem : (n : ℕ) → start_workers n ≡ n
unfolding start_workers
start_workers_lem zero = refl
start_workers_lem (suc n) = omega (arith, start_workers_lem n)

Starts-limit : (z : ℤ) (n : ℕ) → Starts z n → start_workers (worker_limit_of z) ≡ n
Starts-limit z n (as_configured k) = start_workers_lem (suc k)
Starts-limit z n by_default = start_workers_lem 1
Starts-limit z n (disabled k) = start_workers_lem 0

module _ {F : Type 0} (env : Env F) where
  Next-same_workers :
      {a b : World F}
      → Next env a b
      → Inv a.handler a.working
      → b.handler.workers ≡ a.handler.workers
  unfolding set_ready
  Next-same_workers (ready b h ws) v = refl
  Next-same_workers (expire now h ws) v = (expire_eligible_jobs-SameSettings now h).2
  Next-same_workers (submit id now now' r h ws fresh) v =
      handle_analyses-workers env id now now' r h ws fresh v
  Next-same_workers (take now h w rest ws e idle) v =
      (begin_job-SamePool w now (record h { job_queue = rest })).1
  Next-same_workers (finish now h before w after) v = (finish_job-SamePool env w now h).1

  Run-same_workers :
      {a b : World F} → Reach env a → Run env a b → b.handler.workers ≡ a.handler.workers
  Run-same_workers r stop = refl
  Run-same_workers r (step s n) =
      Next-same_workers n (Reach-Inv env (Run-Reach env r s)) ∙ Run-same_workers r s

  -- However requests, expiry and the workers interleave after the start under a configuration, there
  -- are as many workers as its limit says, one if it is not set, none if it is negative, and the jobs that
  -- have been taken from the queue and not ended are at most as many.
  pub Run-workers :
      (cfg : HandlerConfig) (n : ℕ) {w : World F}
      → Starts cfg.worker_limit n
      → Run env (record { handler = new_handler cfg; working = [] }) w
      → (w.handler.workers ≡ n) × (length w.working ≤ n)
  unfolding new_handler
  Run-workers cfg n {w} s r =
      let same : w.handler.workers ≡ n =
        Run-same_workers (start cfg) r ∙ Starts-limit cfg.worker_limit n s in
      let held = Reach-workers env (Run-Reach env (start cfg) r) in (same, rw (← same) held)
