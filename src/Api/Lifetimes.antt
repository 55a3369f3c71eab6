-- ===== src/Api/Lifetimes.antt =====
-- How the jobs of internal/job/job.go move through their states under the service of
-- internal/api/analysis_handler.go.
use mathlib.Core.List.{append_assoc}
use parser_go.Prelude.{
  ℕ, Text, text_eq, text_eq→eq, true, false, ◌≡◌, refl, ◌∙◌, subst, ◌∷◌, ◌++◌, arith, Option, none,
  some, Option-cases, Bool-cases, inl, inr,
}
use parser_go.Prelude.Map
use parser_go.Clock.{Time}
use parser_go.Job.{
  Job, JobError, State, unset, queued, running, succeeded, failed, expired, is_pending, is_unset,
}
use parser_go.Job.Store
use parser_go.Job.Store.{Store, get-update, patch, updated}
use parser_go.Api.Handler.{Env, Handler, QueuedJob, set_ready, is_expirable_job_state}
use parser_go.Api.Jobs.{is_due}
use parser_go.Api.Process.{
  Ending, failure, success, begin_job, finish_job, end_job, run_analysis, fail_job, succeed_job,
  state_update,
}
use parser_go.Api.Expiry.{expire_eligible_jobs-get, expire_one}
use parser_go.Api.Works.{pending_in, AreWorks-remove, AreWorks}
use parser_go.Api.Invariant.{Inv}
use parser_go.Api.Admitted.{handle_analyses-get}
use parser_go.Api.World.{
  World, Next, ready, expire, submit, take, finish, Reach, further, Reach-Inv,
}

-- The diagram of a job's states: it waits, runs, ends, and expires.
pub data Moves : State → State → Type 0 where
  begins : Moves queued running
  succeeds : Moves running succeeded
  fails : Moves running failed
  succeeded_expires : Moves succeeded expired
  failed_expires : Moves failed expired

-- Any number of moves.
pub data Leads : State → State → Type 0 where
  stays : {s : State} → Leads s s
  moves : {s t u : State} → Moves s t → Leads t u → Leads s u

pub Leads-trans : {s t u : State} → Leads s t → Leads t u → Leads s u
Leads-trans stays l = l
Leads-trans (moves m k) l = moves m (Leads-trans k l)

-- What the service may make of a job: the same ID and time of creation, and a state that the diagram
-- leads to.
pub record Forward (j i : Job) : Type 0 where
  pub same_id : i.id ≡ j.id
  pub same_created : i.created_at ≡ j.created_at
  pub leads : Leads j.state i.state

pub Forward-refl : (j : Job) → Forward j j
Forward-refl j = record { same_id = refl; same_created = refl; leads = stays }

pub Forward-trans : {j i k : Job} → Forward j i → Forward i k → Forward j k
Forward-trans f g = record {
  same_id = g.same_id ∙ f.same_id;
  same_created = g.same_created ∙ f.same_created;
  leads = Leads-trans f.leads g.leads;
}

pending-Leads-running : (s : State) → is_pending s ≡ true → Leads s running
pending-Leads-running queued p = moves begins stays
pending-Leads-running running p = stays
pending-Leads-running unset p = cc
pending-Leads-running succeeded p = cc
pending-Leads-running failed p = cc
pending-Leads-running expired p = cc

expirable-Leads-expired : (s : State) → is_expirable_job_state s ≡ true → Leads s expired
expirable-Leads-expired succeeded e = moves succeeded_expires stays
expirable-Leads-expired failed e = moves failed_expires stays
expirable-Leads-expired unset e = cc
expirable-Leads-expired queued e = cc
expirable-Leads-expired running e = cc
expirable-Leads-expired expired e = cc

expire_one-Forward : (now : Time) (retention : ℕ) (j : Job) → Forward j (expire_one now retention j)
expire_one-Forward now retention j = elim (Bool-cases (is_due now retention j)) [
  | inl d ↦ rw d (record {
    same_id = refl;
    same_created = refl;
    leads = expirable-Leads-expired j.state (ground arith);
  })
  | inr d ↦ rw d (Forward-refl j)
]

-- An update by a worker of a job that is pending.
updated-Forward :
    (id : Text) (s : State) (error : Option JobError) (now : Time) (j : Job)
    → is_pending j.state ≡ true
    → is_unset s ≡ false
    → Leads running s
    → Forward j (updated j (state_update id s error now))
unfolding updated
updated-Forward id s error now j p u l = record {
  same_id = refl;
  same_created = refl;
  leads = rw u (Leads-trans (pending-Leads-running j.state p) l);
}

-- The store has the job under the key, or what the service has made of it.
abbrev pub Keeps : Text → Job → Store → Type 0
Keeps k j s = (i : Job) × (Store.get k s ≡ some i) × Forward j i

module _ {F : Type 0} where
  update-Keeps :
      (w : QueuedJob) (s : State) (error : Option JobError) (now : Time) (h : Handler F) (k : Text)
      (j : Job)
      → pending_in (Store.get w.id h.job_store) ≡ true
      → is_unset s ≡ false
      → Leads running s
      → Store.get k h.job_store ≡ some j
      → Keeps k j (Store.update (state_update w.id s error now) h.job_store).0
  update-Keeps w s error now h k j p u l e = elim (Bool-cases (text_eq w.id k)) [
    | inl t ↦
        let own : is_pending j.state ≡ true =
          subst (λ o. pending_in o ≡ true) e
            (subst (λ i. pending_in (Store.get i h.job_store) ≡ true) (text_eq→eq w.id k t) p) in
        (
          updated j (state_update w.id s error now),
          rw (get-update (state_update w.id s error now) k h.job_store, t, e) refl,
          updated-Forward w.id s error now j own u l,
        )
    | inr f ↦ (
      j,
      rw (get-update (state_update w.id s error now) k h.job_store, f, e) refl,
      Forward-refl j,
    )
  ]

  -- The store after the end of a job: one update, to succeeded or failed.
  pub end_job-store :
      (w : QueuedJob) (e : Ending F) (now : Time) (h : Handler F)
      → (s : State) × (error : Option JobError) × (is_unset s ≡ false)
        × (is_pending s ≡ false)
        × Leads running s
        × ((end_job w.id e now h).job_store
            ≡ (Store.update (state_update w.id s error now) h.job_store).0)
  unfolding end_job fail_job succeed_job
  end_job-store w (failure code message) now h =
      (failed, some _, refl, refl, moves fails stays, refl)
  end_job-store w (success sum) now h = elim (Option-cases (Map.get w.id h.workspaces)) [
    | inl e ↦ rw e (succeeded, none, refl, refl, moves succeeds stays, refl)
    | inr (ws, e) ↦ rw e (succeeded, none, refl, refl, moves succeeds stays, refl)
  ]

module _ {F : Type 0} (env : Env F) where
  Next-Keeps :
      {a b : World F} (k : Text) (j : Job)
      → Next env a b
      → Inv a.handler a.working
      → Store.get k a.handler.job_store ≡ some j
      → Keeps k j b.handler.job_store
  unfolding set_ready begin_job finish_job
  Next-Keeps k j (ready b h ws) v e = (j, e, Forward-refl j)
  Next-Keeps k j (expire now h ws) v e = (
    expire_one now h.retention j,
    rw (expire_eligible_jobs-get now k h v.keyed v.retains, e) refl,
    expire_one-Forward now h.retention j,
  )
  Next-Keeps k j (submit id now now' r h ws fresh) v e = (
    expire_one now h.retention j,
    handle_analyses-get env id k now now' r h ws j fresh v e,
    expire_one-Forward now h.retention j,
  )
  Next-Keeps k j (take now h w rest ws q idle) v e =
      update-Keeps w running none now h k j
        (AreWorks-remove h.max_input_size h.job_store ws w rest
          (subst (λ q. AreWorks h.max_input_size h.job_store (ws ++ q)) q v.works)).2
        refl stays e
  Next-Keeps k j (finish now h before w after) v e =
      let (s, error, u, p, l, same) =
        end_job-store w (run_analysis env w.format w.profile w.input_data) now h in
      rw same (
        update-Keeps w s error now h k j
          (AreWorks-remove h.max_input_size h.job_store before w (after ++ h.job_queue) (
            subst (AreWorks h.max_input_size h.job_store)
              (append_assoc before (w ∷ after) h.job_queue) v.works)).2
          u l e)

  -- Runs from one state of the service to another.
  pub data Run : World F → World F → Type 0 where
    stop : {a : World F} → Run a a
    step : {a b c : World F} → Run a b → Next env b c → Run a c

  pub Run-Reach : {a b : World F} → Reach env a → Run a b → Reach env b
  Run-Reach r stop = r
  Run-Reach r (step s n) = further (Run-Reach r s) n

  -- From a state that the service can come to, whatever requests, expiry and the workers do in
  -- whatever order, each job of the store stays there under its ID, keeps its ID and time of creation, and
  -- its state only goes the way queued, running, then succeeded or failed, then expired.
  pub Run-Keeps :
      {a b : World F} (k : Text) (j : Job)
      → Reach env a
      → Run a b
      → Store.get k a.handler.job_store ≡ some j
      → Keeps k j b.handler.job_store
  Run-Keeps k j r stop e = (j, e, Forward-refl j)
  Run-Keeps k j r (step s n) e =
      let (i, e', f) = Run-Keeps k j r s e in
      let (i', e'', f') = Next-Keeps k i n (Reach-Inv env (Run-Reach r s)) e' in
      (i', e'', Forward-trans f f')
