-- ===== src/Checks/Worlds.antt =====
-- The theorems on the runs of internal/api's service at concrete inputs.
use parser_go.Prelude.{
  ℕ, ◌+◌, ◌≤◌, ◌≡◌, refl, [], ◌∷◌, length, some, Text, true, false, arith, split, contains, text,
  text_eq,
}
use parser_go.Job.{Job, is_pending}
use parser_go.Job.Store
use parser_go.Api.Handler.{new_handler, set_ready}
use parser_go.Api.World.{World, Reach, start, further, ready, submit, take, finish}
use parser_go.Api.Pool.{WorkRun, resting, worked, work_left}
use parser_go.Api.Lifetimes.{Run, stop, step, Run-Keeps, Forward}
use parser_go.Api.Started.{by_default, Run-workers}
use parser_go.Api.Progress.{all_jobs_end}
use parser_go.Prelude.{ltb, ◌<◌}
use parser_go.Prelude.Map
use parser_go.Api.Filename.{validate_filename}
use parser_go.Api.Names.{is_valid_format, is_valid_profile}
use parser_go.Api.Space.{trim_space}
use parser_go.Api.Jobs.{create_queued_job, create_or_reuse_idempotent_job, new_job}
use parser_go.Api.Submit.{handle_analyses}
use parser_go.Api.World.{Next}
use parser_go.Checks.Data.{env, line_a}
use parser_go.Checks.Scenario.{
  config, post, job_id, begun, work, ready_handler, submitted, taken, finished, world, unused,
  in_queue,
}

-- The service with one job that waits.
abbrev waiting : World ℕ
waiting = record { handler = submitted; working = [] }

waiting-Reach : Reach env waiting
waiting-Reach =
    further (further (start config) (ready true (new_handler config) []))
      (submit job_id begun begun post ready_handler [] unused)

one_idle : ltb 0 submitted.workers ≡ true
unfolding handle_analyses set_ready new_handler Store.list text_eq text validate_filename contains
    split line_a is_valid_format is_valid_profile trim_space create_or_reuse_idempotent_job Map.get
    create_queued_job
one_idle = refl

has_workers : 0 < submitted.workers
has_workers = ground (arith, one_idle)

taking : Next env waiting (record { handler = taken; working = work ∷ [] })
taking = take begun submitted work [] [] in_queue one_idle

finishing : Next env (record { handler = taken; working = work ∷ [] }) world
finishing = finish begun taken [] work []

run_of_world : Run env (record { handler = new_handler config; working = [] }) world
run_of_world =
    step
      (step
        (step (step stop (ready true (new_handler config) []))
          (submit job_id begun begun post ready_handler [] unused))
        taking)
      finishing

Run-workers_example : (world.handler.workers ≡ 1) × (length world.working ≤ 1)
Run-workers_example = Run-workers env config 1 by_default run_of_world

first_step : WorkRun env 1 waiting (record { handler = taken; working = work ∷ [] })
unfolding taking
first_step = worked taking refl resting

fresh_job : Store.get job_id submitted.job_store ≡ some (new_job job_id begun)
unfolding handle_analyses set_ready new_handler Store.list text_eq text validate_filename contains
    split line_a is_valid_format is_valid_profile trim_space create_or_reuse_idempotent_job Map.get
    create_queued_job Store.get Store.create Map.put
fresh_job = refl

Run-Keeps_example :
    (i : Job) × (Store.get job_id finished.job_store ≡ some i) × Forward (new_job job_id begun) i
Run-Keeps_example =
    Run-Keeps env job_id (new_job job_id begun) waiting-Reach (step (step stop taking) finishing)
      fresh_job

all_jobs_end_example :
    (1 + work_left (record { handler = taken; working = work ∷ [] }) ≡ work_left waiting)
    × (b : World ℕ) × WorkRun env
        (work_left (record { handler = taken; working = work ∷ [] }))
        (record { handler = taken; working = work ∷ [] })
        b
    × (b.handler.job_queue ≡ [])
    × (b.working ≡ [])
    × ((k : Text) (j : Job)
        → Store.get k waiting.handler.job_store ≡ some j
        → (i : Job) × (Store.get k b.handler.job_store ≡ some i)
          × Forward j i
          × (is_pending i.state ≡ false))
all_jobs_end_example = all_jobs_end env begun waiting-Reach has_workers first_step
