-- ===== src/Api/Admitted.antt =====
-- A request to POST /v1/analyses keeps the invariant of the service, changes no other job and none of the
-- settings (internal/api/analysis_handler.go).
use parser_go.Prelude.{
  ℕ, Text, text_eq_iff, ◌≡◌, refl, ◌∙◌, arith, length, List, none, some, ltb, Bool-cases, inl, inr,
}
use parser_go.Prelude.Map
use parser_go.Prelude.Map.{Map}
use parser_go.Prelude.Keys.{IsUnique, put-IsUnique, delete-IsUnique}
use parser_go.Clock.{Time}
use parser_go.Job.{Job}
use parser_go.Job.Store
use parser_go.Job.Store.{get-create, get-delete_lem}
use parser_go.Api.Http.{Request}
use parser_go.Api.Handler.{Env, Handler, QueuedJob, IdempotencyRecord}
use parser_go.Api.Jobs.{create_queued_job, expire_eligible_jobs, new_job}
use parser_go.Api.Submit.{handle_analyses}
use parser_go.Api.Expiry.{expire_eligible_jobs-get, expire_one}
use parser_go.Api.Forgetting.{expire_eligible_jobs-SameSettings}
use parser_go.Api.Invariant.{
  Inv, create_queued_job-Inv, create_queued_job-room, create_queued_job-full,
}
use parser_go.Api.Lifecycle.{expire_eligible_jobs-Inv}
use parser_go.Api.Admission.{Admits, handle_analyses-keeps}

module _ {F : Type 0} where
  keys-Inv :
      (m : Map IdempotencyRecord) (h : Handler F) (working : List QueuedJob)
      → IsUnique m
      → Inv h working
      → Inv (record h { idempotency = m }) working
  keys-Inv m h working u v = record {
    keyed = v.keyed;
    keys = u;
    consistency = v.consistency;
    works = v.works;
    accounted = v.accounted;
    queue_bound = v.queue_bound;
    retains = v.retains;
  }

  Inv-Admits : (working : List QueuedJob) → Admits (λ (h : Handler F). Inv h working)
  Inv-Admits working = record {
    drop_key = λ key h v.
        keys-Inv (Map.delete key h.idempotency) h working (delete-IsUnique key h.idempotency v.keys)
          v;
    store_key = λ key r h v.
        keys-Inv (Map.put key r h.idempotency) h working (put-IsUnique key r h.idempotency v.keys)
          v;
    queue = λ id now format profile input h fresh ok v.
        create_queued_job-Inv id now format profile input h working fresh v ok;
  }

  expire_eligible_jobs-fresh :
      (id : Text) (now : Time) (h : Handler F) (working : List QueuedJob)
      → Inv h working
      → Store.get id h.job_store ≡ none
      → Store.get id (expire_eligible_jobs now h).job_store ≡ none
  expire_eligible_jobs-fresh id now h working v fresh =
      rw (expire_eligible_jobs-get now id h v.keyed v.retains, fresh) refl

  pub handle_analyses-Inv :
      (env : Env F) (job_id : Text) (now now' : Time) (r : Request) (h : Handler F)
      (working : List QueuedJob)
      → Store.get job_id h.job_store ≡ none
      → Inv h working
      → Inv (handle_analyses env job_id now now' r h).0 working
  handle_analyses-Inv env job_id now now' r h working fresh v =
      handle_analyses-keeps (Inv-Admits working) env job_id now now' r h
        (expire_eligible_jobs-fresh job_id now h working v fresh)
        (expire_eligible_jobs-Inv now h working v)

  -- A job that the store has keeps its entry.
  create_queued_job-get :
      (id k : Text) (now : Time) (format profile input : Text) (h : Handler F) (j : Job)
      → Store.get id h.job_store ≡ none
      → Store.get k h.job_store ≡ some j
      → Store.get k (create_queued_job id now format profile input h).0.job_store ≡ some j
  create_queued_job-get id k now format profile input h j fresh e =
      elim (Bool-cases (ltb (length h.job_queue) h.queue_limit)) [
        | inl r ↦
            rw (create_queued_job-room id now format profile input h r)
              (ground (arith, get-create (new_job id now) k h.job_store, text_eq_iff id k))
        | inr r ↦ rw (create_queued_job-full id now format profile input h r) (
            ground (
              arith,
              get-create (new_job id now) k h.job_store,
              get-delete_lem id k (Store.create (new_job id now) h.job_store),
              text_eq_iff id k,
            ))
      ]

  get-Admits : (k : Text) (j : Job) → Admits (λ (h : Handler F). Store.get k h.job_store ≡ some j)
  get-Admits k j = record {
    drop_key = λ key h e. e;
    store_key = λ key r h e. e;
    queue = λ id now format profile input h fresh ok e.
        create_queued_job-get id k now format profile input h j fresh e;
  }

  -- A submission does to the jobs of the store what expiry does.
  pub handle_analyses-get :
      (env : Env F) (job_id k : Text) (now now' : Time) (r : Request) (h : Handler F)
      (working : List QueuedJob) (j : Job)
      → Store.get job_id h.job_store ≡ none
      → Inv h working
      → Store.get k h.job_store ≡ some j
      → Store.get k (handle_analyses env job_id now now' r h).0.job_store
        ≡ some (expire_one now h.retention j)
  handle_analyses-get env job_id k now now' r h working j fresh v e =
      handle_analyses-keeps (get-Admits k (expire_one now h.retention j)) env job_id now now' r h
        (expire_eligible_jobs-fresh job_id now h working v fresh)
        (rw (expire_eligible_jobs-get now k h v.keyed v.retains, e) refl)

  create_queued_job-workers :
      (id : Text) (now : Time) (format profile input : Text) (h : Handler F)
      → (create_queued_job id now format profile input h).0.workers ≡ h.workers
  create_queued_job-workers id now format profile input h =
      elim (Bool-cases (ltb (length h.job_queue) h.queue_limit)) [
        | inl r ↦ rw (create_queued_job-room id now format profile input h r) refl
        | inr r ↦ rw (create_queued_job-full id now format profile input h r) refl
      ]

  workers-Admits : (n : ℕ) → Admits (λ (h : Handler F). h.workers ≡ n)
  workers-Admits n = record {
    drop_key = λ key h e. e;
    store_key = λ key r h e. e;
    queue = λ id now format profile input h fresh ok e.
        create_queued_job-workers id now format profile input h ∙ e;
  }

  pub handle_analyses-workers :
      (env : Env F) (job_id : Text) (now now' : Time) (r : Request) (h : Handler F)
      (working : List QueuedJob)
      → Store.get job_id h.job_store ≡ none
      → Inv h working
      → (handle_analyses env job_id now now' r h).0.workers ≡ h.workers
  handle_analyses-workers env job_id now now' r h working fresh v =
      handle_analyses-keeps (workers-Admits h.workers) env job_id now now' r h
        (expire_eligible_jobs-fresh job_id now h working v fresh)
        (expire_eligible_jobs-SameSettings now h).2
