-- ===== src/Api/Jobs.antt =====
-- The methods of the Handler of internal/api/analysis_handler.go that create, reuse and expire jobs.
use parser_go.Prelude.{
  ℕ, Text, text_eq, Bool, true, false, Option, none, some, List, [], ◌∷◌, ◌++◌, ltb, ◌==◌,
  if◌then◌else◌, length, not, ◌&&◌,
}
use parser_go.Prelude.Map
use parser_go.Clock.{Time, sub, is_zero, zero_time}
use parser_go.Job.{Job, queued, expired, is_expired}
use parser_go.Job.Store
use parser_go.Api.Handler.{
  Handler, QueuedJob, Workspace, IdempotencyRecord, is_expirable_job_state,
  delete_idempotency_for_job,
}

abbrev pub new_job : Text → Time → Job
new_job job_id now = record {
  id = job_id;
  state = queued;
  created_at = now;
  updated_at = now;
  error = none;
}

-- The three results of lookupDuplicateJobLocked, with the handler that it leaves.
pub data Duplicate : Type 0 where
  missing conflict : Duplicate
  found : Job → Duplicate

-- What createOrReuseIdempotentJob returns: a job, or the conflict or saturation flag.
pub data Submission : Type 0 where
  job : Job → Submission
  key_conflict saturated : Submission

-- The update by which a job expires.
abbrev pub expiry : Time → Job → Job
expiry now existing = record {
  id = existing.id;
  state = expired;
  created_at = zero_time;
  updated_at = now;
  error = existing.error;
}

-- Whether the loop of expireEligibleJobs goes on to the update. A job that was updated after `now`
-- has the difference 0 here and a negative one in Go, both below the retention.
abbrev pub is_due : Time → ℕ → Job → Bool
is_due now retention existing =
    is_expirable_job_state existing.state
    && (not (is_zero existing.updated_at) && not (ltb (sub now existing.updated_at) retention))

module _ {F : Type 0} where
  -- enqueueJob: the send on the channel goes through if there is room in its buffer
  unfoldable pub enqueue_job : QueuedJob → Handler F → Handler F × Bool
  enqueue_job work h =
      if ltb (length h.job_queue) h.queue_limit
      then (record h { job_queue = h.job_queue ++ work ∷ [] }, true)
      else (h, false)

  -- cleanupRejectedJob
  unfoldable pub cleanup_rejected_job : Text → Handler F → Handler F
  cleanup_rejected_job job_id h = record h {
    job_store = Store.delete job_id h.job_store;
    workspaces = Map.delete job_id h.workspaces;
  }

  abbrev pub new_workspace : Text → Workspace F
  new_workspace job_id = record { id = job_id; job_id = job_id; summary = none }

  abbrev accept_or_clean : Job → Handler F × Bool → Handler F × Option Job
  accept_or_clean j (h, true) = (h, some j)
  accept_or_clean j (h, false) = (cleanup_rejected_job j.id h, none)

  -- createQueuedJob, given the ID that generateJobID returns
  unfoldable pub create_queued_job :
      Text → Time → Text → Text → Text → Handler F → Handler F × Option Job
  unfolding enqueue_job cleanup_rejected_job
  create_queued_job job_id now format profile input h = accept_or_clean (new_job job_id now) (
      enqueue_job (record { id = job_id; format = format; profile = profile; input_data = input })
        (record h {
          job_store = Store.create (new_job job_id now) h.job_store;
          workspaces = Map.put job_id (new_workspace job_id) h.workspaces;
        }))

  abbrev delete_key : Text → Handler F → Handler F
  delete_key key h = record h { idempotency = Map.delete key h.idempotency }

  abbrev reuse : Text → Handler F → Option Job → Handler F × Duplicate
  reuse key h none = (delete_key key h, missing)
  reuse key h (some j) = if is_expired j.state then (delete_key key h, missing) else (h, found j)

  abbrev check_record : Text → Text → Handler F → Option IdempotencyRecord → Handler F × Duplicate
  check_record key fingerprint h none = (h, missing)
  check_record key fingerprint h (some r) =
      if not (text_eq r.fingerprint fingerprint)
      then (h, conflict)
      else reuse key h (Store.get r.job_id h.job_store)

  -- lookupDuplicateJobLocked
  unfoldable pub lookup_duplicate_job : Text → Text → Handler F → Handler F × Duplicate
  lookup_duplicate_job key fingerprint h =
      check_record key fingerprint h (Map.get key h.idempotency)

  abbrev pub remember : Text → Text → Handler F × Option Job → Handler F × Submission
  remember key fingerprint (h, none) = (h, saturated)
  remember key fingerprint (h, some j) = (
    record h {
      idempotency = Map.put key (record { fingerprint = fingerprint; job_id = j.id }) h.idempotency;
    },
    job j,
  )

  abbrev pub or_create :
      Text
      → Time
      → Text
      → Text
      → Text
      → Text
      → Text
      → Handler F × Duplicate
      → Handler F × Submission
  or_create job_id now format profile input key fingerprint (h, conflict) = (h, key_conflict)
  or_create job_id now format profile input key fingerprint (h, found j) = (h, job j)
  or_create job_id now format profile input key fingerprint (h, missing) =
      remember key fingerprint (create_queued_job job_id now format profile input h)

  -- createOrReuseIdempotentJob; its mutex makes it one step
  unfoldable pub create_or_reuse_idempotent_job :
      Text → Time → Text → Text → Text → Text → Text → Handler F → Handler F × Submission
  unfolding lookup_duplicate_job
  create_or_reuse_idempotent_job job_id now format profile input key fingerprint h =
      or_create job_id now format profile input key fingerprint
        (lookup_duplicate_job key fingerprint h)

  unfoldable pub expire_job : Time → Job → Handler F → Handler F
  unfolding delete_idempotency_for_job
  expire_job now existing h = delete_idempotency_for_job existing.id (record h {
    job_store = (Store.update (expiry now existing) h.job_store).0;
    workspaces = Map.delete existing.id h.workspaces;
  })

  -- The loop over the jobs that Store.List returned.
  unfoldable pub expire_loop : Time → List Job → Handler F → Handler F
  unfolding expire_job
  expire_loop now [] h = h
  expire_loop now (j ∷ js) h =
      expire_loop now js (if is_due now h.retention j then expire_job now j h else h)

  -- expireEligibleJobs
  unfoldable pub expire_eligible_jobs : Time → Handler F → Handler F
  unfolding expire_loop
  expire_eligible_jobs now h =
      if h.retention == 0 then h else expire_loop now (Store.list h.job_store) h
