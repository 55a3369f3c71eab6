-- ===== src/Api/Invariant.antt =====
-- The invariant of the service of internal/api/analysis_handler.go, and that the methods which change
-- the store, the workspaces and the queue keep it.
use mathlib.Core.List.{append_assoc}
use parser_go.Prelude.{
  ℕ, ◌≤◌, Text, text_eq_iff, text_eq_refl, Bool, true, false, ◌≡◌, refl, subst, List, [], ◌∷◌, ◌++◌,
  arith, length, length-append, Option, none, some, if◌then◌else◌, is_some, ltb, ◌==◌, Bool-cases,
  inl, inr,
}
use parser_go.Prelude.Map
use parser_go.Prelude.Map.{Map, get-put, get-delete}
use parser_go.Prelude.Keys.{IsUnique}
use parser_go.Clock.{Time}
use parser_go.Job.{Job, unset, queued, running, succeeded, failed, expired}
use parser_go.Job.Store
use parser_go.Job.Store.{Store, get-create, get-update, get-delete_lem, updated, patch}
use parser_go.Job.Laws.{IsWellKeyed, create-IsWellKeyed, delete-IsWellKeyed}
use parser_go.Api.Handler.{Handler, Workspace, QueuedJob}
use parser_go.Api.Jobs.{create_queued_job, new_job, new_workspace, is_due}
use parser_go.Api.Detail.{workspace_summary}
use parser_go.Api.Expiry.{map_job, expire_one, due_in}
use parser_go.Api.Works.{
  pending_in, IsValidWork, has_work, AreWorks, AreWorks-store, AreWorks-append, has_work_pending,
  Accounts, has_work-append,
}

module _ {F : Type 0} where
  -- A queued or running job has a workspace, a job that succeeded has a summary in it, a job that failed
  -- has an error, and every job has a state.
  abbrev pub consistent : Option Job → Option (Workspace F) → Bool
  consistent none space = true
  consistent (some j) space = elim j.state [
    | queued ↦ is_some space
    | running ↦ is_some space
    | succeeded ↦ is_some (workspace_summary space)
    | failed ↦ is_some j.error
    | expired ↦ true
    | unset ↦ false
  ]

  -- The service with the jobs that its workers have taken from the queue, oldest first.
  pub record Inv (h : Handler F) (working : List QueuedJob) : Type 0 where
    pub keyed : IsWellKeyed h.job_store
    pub keys : IsUnique h.idempotency
    pub consistency :
        (k : Text) → consistent (Store.get k h.job_store) (Map.get k h.workspaces) ≡ true
    pub works : AreWorks h.max_input_size h.job_store (working ++ h.job_queue)
    pub accounted : Accounts h.job_store (working ++ h.job_queue)
    pub queue_bound : length h.job_queue ≤ h.queue_limit
    pub retains : (h.retention == 0) ≡ false

  -- A new job is queued if there is room, and leaves no trace if there is none.
  pub create_queued_job-room :
      (id : Text) (now : Time) (format profile input : Text) (h : Handler F)
      → ltb (length h.job_queue) h.queue_limit ≡ true
      → create_queued_job id now format profile input h ≡ (
        record h {
          job_store = Store.create (new_job id now) h.job_store;
          workspaces = Map.put id (new_workspace id) h.workspaces;
          job_queue =
              h.job_queue
              ++ record { id = id; format = format; profile = profile; input_data = input } ∷ [];
        },
        some (new_job id now),
      )
  unfolding create_queued_job
  create_queued_job-room id now format profile input h r = rw r refl

  pub create_queued_job-full :
      (id : Text) (now : Time) (format profile input : Text) (h : Handler F)
      → ltb (length h.job_queue) h.queue_limit ≡ false
      → create_queued_job id now format profile input h ≡ (
        record h {
          job_store = Store.delete id (Store.create (new_job id now) h.job_store);
          workspaces = Map.delete id (Map.put id (new_workspace id) h.workspaces);
        },
        none,
      )
  unfolding create_queued_job
  create_queued_job-full id now format profile input h r = rw r refl

  module _ (id : Text) (now : Time) (format profile input : Text) (h : Handler F)
      (working : List QueuedJob) (fresh : Store.get id h.job_store ≡ none) (v : Inv h working) where
    abbrev pub work : QueuedJob
    work = record { id = id; format = format; profile = profile; input_data = input }

    unused : has_work id (working ++ h.job_queue) ≡ false
    unused =
        ground
          (arith, has_work_pending h.max_input_size h.job_store id (working ++ h.job_queue) v.works)

    same_pending :
        (k : Text)
        → has_work k (working ++ h.job_queue) ≡ true
        → Store.get k (Store.create (new_job id now) h.job_store) ≡ Store.get k h.job_store
    same_pending k q =
        ground (arith, get-create (new_job id now) k h.job_store, text_eq_iff id k, unused)

    accepted-consistency :
        (k : Text)
        → consistent
            (Store.get k (Store.create (new_job id now) h.job_store))
            (Map.get k (Map.put id (new_workspace id) h.workspaces))
          ≡ true
    accepted-consistency k = ground (
      arith,
      get-create (new_job id now) k h.job_store,
      get-put id k (new_workspace {F = F} id) h.workspaces,
      v.consistency k,
    )

    rejected-consistency :
        (k : Text)
        → consistent
            (Store.get k (Store.delete id (Store.create (new_job id now) h.job_store)))
            (Map.get k (Map.delete id (Map.put id (new_workspace id) h.workspaces)))
          ≡ true
    rejected-consistency k = ground (
      arith,
      get-create (new_job id now) k h.job_store,
      get-delete_lem id k (Store.create (new_job id now) h.job_store),
      get-put id k (new_workspace {F = F} id) h.workspaces,
      get-delete id k (Map.put id (new_workspace {F = F} id) h.workspaces),
      v.consistency k,
    )

    accepted-works :
        IsValidWork h.max_input_size work
        → AreWorks h.max_input_size
            (Store.create (new_job id now) h.job_store)
            (working ++ (h.job_queue ++ work ∷ []))
    accepted-works ok =
        subst (AreWorks h.max_input_size (Store.create (new_job id now) h.job_store))
          (append_assoc working h.job_queue (work ∷ []))
          (AreWorks-append h.max_input_size _ (working ++ h.job_queue) work
            (AreWorks-store h.max_input_size h.job_store _ (working ++ h.job_queue)
              (λ k q p. rw (same_pending k q) p) v.works)
            unused (ground (arith, get-create (new_job id now) id h.job_store, text_eq_refl id)) ok)

    rejected-works :
        AreWorks h.max_input_size
          (Store.delete id (Store.create (new_job id now) h.job_store))
          (working ++ h.job_queue)
    rejected-works =
        AreWorks-store h.max_input_size h.job_store _ (working ++ h.job_queue)
          (λ k q p. ground (
            arith,
            get-delete_lem id k (Store.create (new_job id now) h.job_store),
            same_pending k q,
            text_eq_iff id k,
            unused,
          ))
          v.works

    accepted-accounted :
        Accounts (Store.create (new_job id now) h.job_store) (working ++ (h.job_queue ++ work ∷ []))
    accepted-accounted k p = ground (
      arith,
      get-create (new_job id now) k h.job_store,
      has_work-append k working (h.job_queue ++ work ∷ []),
      has_work-append k working h.job_queue,
      has_work-append k h.job_queue (work ∷ []),
      v.accounted k,
    )

    rejected-accounted :
        Accounts
          (Store.delete id (Store.create (new_job id now) h.job_store))
          (working ++ h.job_queue)
    rejected-accounted k p = ground (
      arith,
      get-create (new_job id now) k h.job_store,
      get-delete_lem id k (Store.create (new_job id now) h.job_store),
      v.accounted k,
    )

    pub create_queued_job-Inv :
        IsValidWork h.max_input_size work
        → Inv (create_queued_job id now format profile input h).0 working
    create_queued_job-Inv ok = elim (Bool-cases (ltb (length h.job_queue) h.queue_limit)) [
      | inl r ↦ rw (create_queued_job-room id now format profile input h r) (record {
        keyed = create-IsWellKeyed (new_job id now) h.job_store v.keyed;
        keys = v.keys;
        consistency = accepted-consistency;
        works = accepted-works ok;
        accounted = accepted-accounted;
        queue_bound = ground (arith, length-append {0} h.job_queue (work ∷ []));
        retains = v.retains;
      })
      | inr r ↦ rw (create_queued_job-full id now format profile input h r) (record {
        keyed =
            delete-IsWellKeyed id (Store.create (new_job id now) h.job_store)
              (create-IsWellKeyed (new_job id now) h.job_store v.keyed);
        keys = v.keys;
        consistency = rejected-consistency;
        works = rejected-works;
        accounted = rejected-accounted;
        queue_bound = v.queue_bound;
        retains = v.retains;
      })
    ]

-- What the invariant needs of one job and its workspace, when the job expires.
pub expired-consistent :
    {F : Type 0} (now : Time) (retention : ℕ) (o : Option Job) (space : Option (Workspace F))
    → consistent o space ≡ true
    → consistent
        (map_job (expire_one now retention) o)
        (if due_in now retention o then none else space)
      ≡ true
expired-consistent now retention none space h = refl
expired-consistent now retention (some j) space h = elim (Bool-cases (is_due now retention j)) [
  | inl d ↦ rw d refl
  | inr d ↦ rw d h
]

pub expired-pending :
    (now : Time) (retention : ℕ) (o : Option Job)
    → pending_in o ≡ true
    → pending_in (map_job (expire_one now retention) o) ≡ true
expired-pending now retention none h = cc
expired-pending now retention (some j) h = ground arith

-- Expiry makes no job pending.
pub expired-not_pending :
    (now : Time) (retention : ℕ) (o : Option Job)
    → pending_in (map_job (expire_one now retention) o) ≡ true
    → pending_in o ≡ true
expired-not_pending now retention none h = cc
expired-not_pending now retention (some j) h = ground arith
